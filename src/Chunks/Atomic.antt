-- ===== src/Chunks/Atomic.antt =====
-- A chunk is at its name whole or not at all.
use hydra_fs.Prelude.{
  ℕ, zero, suc, ◌≡◌, ◌≢◌, refl, sym, ap, ◌∙◌, subst, Bool, true, false, Bool-cases, ◌⊎◌, inl, inr,
  Option, none, some, String, [], ◌∷◌, ◌++◌, append-nil, append_assoc, take-append-drop, take, drop,
  length, ◌&&◌, ==_iff, if◌then◌else◌, arith,
}
use hydra_fs.Prelude.Int.{ℤ, pos, negsuc, positive}
use hydra_fs.Text.{Bytes}
use hydra_fs.Chunks.{
  Linked, linked, exists, refused, FileSystem, amount, is_size, is_complete_chunk, write_all,
  give_up, settle, after_link, publish, finish, fill, write_chunk_atomic,
}
use hydra_fs.Chunks.Posix.{Disk, put_other, put_same, Made, Wrote, Links, Holds, Posix}

-- The file at `chunk` is as before, or was not there and is whole; it has the right size where the
-- answer is 0.
pub record IsAtomic (chunk : String) (buf : Bytes) (v : Disk) (ret : ℤ) (v' : Disk) : Type 0 where
  pub whole : (v' chunk ≡ v chunk) ⊎ ((v chunk ≡ none) × (v' chunk ≡ some buf))
  pub complete : ret ≡ pos 0 → Holds v' chunk (length buf)

size_of :
    (o : Option ℕ) (len : ℕ) (H : ℕ → Type 0)
    → ((n : ℕ) → o ≡ some n → H n)
    → is_size o len ≡ true
    → H len
size_of none len H known h = cc
size_of (some n) len H known h = subst H ((==_iff n len).0 h) (known n refl)

module _ {W : Type 0} (fs : FileSystem W) (view : W → Disk) (posix : Posix fs view) where
  complete-Holds :
      (chunk : String) (len : ℕ) (w : W)
      → (is_complete_chunk fs chunk len w).0 ≡ true
      → Holds (view w) chunk len
  unfolding is_complete_chunk
  complete-Holds chunk len w h =
      size_of (fs.stat chunk w).0 len (Holds (view w) chunk) (posix.size chunk w) h

  module _ (chunk tmp : String) (other : tmp ≢ chunk) where
    unlinked : (w : W) → view (fs.unlink tmp w) chunk ≡ view w chunk
    unlinked w = elim (posix.unlink tmp w) [
      | inl e ↦ ap (λ v. v chunk) e ∙ put_other tmp chunk none (view w) other
      | inr e ↦ ap (λ v. v chunk) e
    ]

    -- The chunk's name is left alone, and the file of its own has more bytes where all are written.
    abbrev Filled : ℕ → Bytes → Bytes → W → Type 0
    Filled fuel buf c w =
        (view (write_all fs fuel tmp buf w).1 chunk ≡ view w chunk)
        × ((write_all fs fuel tmp buf w).0 ≡ true
            → view (write_all fs fuel tmp buf w).1 tmp ≡ some (c ++ buf))

    write_all-Filled :
        (fuel : ℕ) (buf c : Bytes) (w : W) → view w tmp ≡ some c → Filled fuel buf c w
    unfolding write_all
    write_all-Filled fuel [] c w e = (refl, λ _. e ∙ ap some (sym (append-nil c)))
    write_all-Filled zero (x ∷ rest) c w e = (refl, λ h. cc)
    write_all-Filled (suc fuel) (x ∷ rest) c w e =
        by_count (fs.write tmp (x ∷ rest) w).0 (fs.write tmp (x ∷ rest) w).1
          (posix.write tmp (x ∷ rest) w) (λ buf c w. write_all-Filled fuel buf c w)
      where
        by_count :
            (n : ℤ) (w1 : W)
            → Wrote n tmp (x ∷ rest) (view w) (view w1)
            → ((buf c : Bytes) (w : W) → view w tmp ≡ some c → Filled fuel buf c w)
            → let further = write_all fs fuel tmp (drop (amount n) (x ∷ rest)) w1 in
              let out = if positive n then further else (false, w1) in
              (view out.1 chunk ≡ view w chunk)
              × (out.0 ≡ true → view out.1 tmp ≡ some (c ++ (x ∷ rest)))
        by_count (negsuc n) w1 same again = (ap (λ v. v chunk) same, λ h. cc)
        by_count (pos zero) w1 (l, told) again =
            (ap (λ v. v chunk) (told c e) ∙ put_other tmp chunk _ (view w) other, λ h. cc)
        by_count (pos (suc n)) w1 (l, told) again =
            let more : view w1 tmp ≡ some (c ++ take (suc n) (x ∷ rest)) =
              ap (λ v. v tmp) (told c e) ∙ put_same tmp _ (view w) in
            let still : view w1 chunk ≡ view w chunk =
              ap (λ v. v chunk) (told c e) ∙ put_other tmp chunk _ (view w) other in
            let (kept, filled) =
              again (drop (suc n) (x ∷ rest)) (c ++ take (suc n) (x ∷ rest)) w1 more in
            let joined : (c ++ take (suc n) (x ∷ rest)) ++ drop (suc n) (x ∷ rest)
                ≡ c ++ (x ∷ rest) =
              append_assoc c (take (suc n) (x ∷ rest)) (drop (suc n) (x ∷ rest))
              ∙ ap (λ s. c ++ s) (take-append-drop (suc n) (x ∷ rest)) in
            let up : positive (pos (suc n)) ≡ true = ground arith in
            rw up (kept ∙ still, λ h. filled h ∙ ap some joined)

    module _ (buf : Bytes) (v : Disk) where
      -- An end that removes the file of its own.
      give_up-IsAtomic :
          (w : W)
          → view w chunk ≡ v chunk
          → IsAtomic chunk buf v (give_up fs tmp w).0 (view (give_up fs tmp w).1)
      unfolding give_up
      give_up-IsAtomic w e = record { whole = inl (unlinked w ∙ e); complete = λ h. cc }

      settle-IsAtomic :
          (w : W)
          → (view w chunk ≡ v chunk) ⊎ ((v chunk ≡ none) × (view w chunk ≡ some buf))
          → Holds (view w) chunk (length buf)
          → IsAtomic chunk buf v (settle fs tmp w).0 (view (settle fs tmp w).1)
      unfolding settle
      settle-IsAtomic w e (c, there, size) = record {
        whole = elim e [
          | inl same ↦ inl (unlinked w ∙ same)
          | inr (absent, full) ↦ inr (absent, unlinked w ∙ full)
        ];
        complete = λ _. (c, unlinked w ∙ there, size);
      }

      stat_still : (w : W) → view (is_complete_chunk fs chunk (length buf) w).1 ≡ view w
      unfolding is_complete_chunk
      stat_still w = posix.stat chunk w

      after_link-IsAtomic :
          (r : Linked) (u : Disk) (w : W)
          → Links r tmp chunk u (view w)
          → u chunk ≡ v chunk
          → u tmp ≡ some buf
          → IsAtomic chunk buf v
              (after_link fs r tmp chunk (length buf) w).0
              (view (after_link fs r tmp chunk (length buf) w).1)
      unfolding after_link
      after_link-IsAtomic linked u w (absent, e) same full =
          let there : view w chunk ≡ some buf =
            ap (λ v. v chunk) e ∙ (put_same chunk (u tmp) u ∙ full) in
          settle-IsAtomic w (inr (sym same ∙ absent, there)) (buf, there, refl)
      after_link-IsAtomic refused u w e same full = give_up-IsAtomic w (ap (λ v. v chunk) e ∙ same)
      after_link-IsAtomic exists u w e same full =
          elim (Bool-cases (is_complete_chunk fs chunk (length buf) w).0) [
            | inl t ↦ rw t (
                settle-IsAtomic _ (inl known) (
                  subst (λ v. Holds v chunk (length buf)) (sym (stat_still w))
                    (complete-Holds chunk (length buf) w t)))
            | inr f ↦ rw f (give_up-IsAtomic _ known)
          ]
        where
          known : view (is_complete_chunk fs chunk (length buf) w).1 chunk ≡ v chunk
          known = ap (λ v. v chunk) (stat_still w ∙ e) ∙ same

      publish-IsAtomic :
          (w : W)
          → view w chunk ≡ v chunk
          → view w tmp ≡ some buf
          → IsAtomic chunk buf v
              (publish fs tmp chunk (length buf) w).0
              (view (publish fs tmp chunk (length buf) w).1)
      unfolding publish
      publish-IsAtomic w same full =
          elim (Bool-cases (is_complete_chunk fs chunk (length buf) w).0) [
            | inl t ↦ rw t (
                settle-IsAtomic _ (inl known) (
                  subst (λ v. Holds v chunk (length buf)) (sym (stat_still w))
                    (complete-Holds chunk (length buf) w t)))
            | inr f ↦ rw f (
                after_link-IsAtomic _ (view w1) _ (posix.link tmp chunk w1) known
                  (ap (λ v. v tmp) (stat_still w) ∙ full))
          ]
        where
          w1 : W
          w1 = (is_complete_chunk fs chunk (length buf) w).1

          known : view w1 chunk ≡ v chunk
          known = ap (λ v. v chunk) (stat_still w) ∙ same

      finish-IsAtomic :
          (w : W)
          → view w chunk ≡ v chunk
          → view w tmp ≡ some buf
          → IsAtomic chunk buf v
              (finish fs tmp chunk (length buf) w).0
              (view (finish fs tmp chunk (length buf) w).1)
      unfolding finish
      finish-IsAtomic w same full = by_result ((fs.fsync tmp w).0 && (fs.close tmp w1).0)
        where
          w1 : W
          w1 = (fs.fsync tmp w).1

          w2 : W
          w2 = (fs.close tmp w1).1

          still : view w2 ≡ view w
          still = posix.close tmp w1 ∙ posix.fsync tmp w

          by_result :
              (b : Bool)
              → let out = if b then publish fs tmp chunk (length buf) w2 else give_up fs tmp w2 in
                IsAtomic chunk buf v out.0 (view out.1)
          by_result true =
              publish-IsAtomic w2 (ap (λ v. v chunk) still ∙ same) (ap (λ v. v tmp) still ∙ full)
          by_result false = give_up-IsAtomic w2 (ap (λ v. v chunk) still ∙ same)

  fill-IsAtomic :
      (made : Option String) (chunk : String) (buf : Bytes) (v : Disk) (w : W)
      → Made made v (view w)
      → ((tmp : String) → made ≡ some tmp → tmp ≢ chunk)
      → IsAtomic chunk buf v (fill fs made chunk buf w).0 (view (fill fs made chunk buf w).1)
  unfolding fill
  fill-IsAtomic none chunk buf v w e named = record {
    whole = inl (ap (λ v. v chunk) e);
    complete = λ h. cc;
  }
  fill-IsAtomic (some tmp) chunk buf v w e named =
      elim (Bool-cases (write_all fs (length buf) tmp buf w).0) [
        | inl t ↦
            rw t
              (finish-IsAtomic chunk tmp (named tmp refl) buf v _ (written.0 ∙ empty) (written.1 t))
        | inr f ↦ rw f (
            give_up-IsAtomic chunk tmp (named tmp refl) buf v _
              (ap (λ v. v chunk) (posix.close tmp _) ∙ (written.0 ∙ empty)))
      ]
    where
      empty : view w chunk ≡ v chunk
      empty = ap (λ v. v chunk) e ∙ put_other tmp chunk _ v (named tmp refl)

      written : Filled chunk tmp (named tmp refl) (length buf) buf [] w
      written =
          write_all-Filled chunk tmp (named tmp refl) (length buf) buf [] w
            (ap (λ v. v tmp) e ∙ put_same tmp _ v)

  -- Wherever writing a chunk fails, the file at the chunk's name is the one that was there, or there
  -- was none and it holds all the bytes; and where the answer is 0, a file of their number is there.
  -- `mkstemp` gives a path that is not the chunk's.
  pub write_chunk_atomic-IsAtomic :
      (chunk_dir chunk_path : String) (chunk_buf : Bytes) (w : W)
      → ((tmp : String) → (fs.mkstemp chunk_dir w).0 ≡ some tmp → tmp ≢ chunk_path)
      → IsAtomic chunk_path chunk_buf
          (view w)
          (write_chunk_atomic fs chunk_dir chunk_path chunk_buf w).0
          (view (write_chunk_atomic fs chunk_dir chunk_path chunk_buf w).1)
  unfolding write_chunk_atomic
  write_chunk_atomic-IsAtomic dir chunk buf w named =
      fill-IsAtomic (fs.mkstemp dir w).0 chunk buf (view w) (fs.mkstemp dir w).1
        (posix.mkstemp dir w) named
