-- ===== src/Ranking/Mirror.antt =====
-- What it means that the ranking in Redis shows the shared files, and that an import of src_cgi/sharefiles_cgi.c
-- adds one of them.
use Prim.Native.String.{◌++◌ as ◌<>◌}
use package.text.Mathlib.Text.{◌==◌ as str_eq}
use package.text.Mathlib.TextEquality.{eq_iff}
use package.text.Mathlib.TextPositions.{eq_refl}
use hydra_fs.Prelude.{
  some_inj, ◌≡◌, ◌⊎◌, inl, inr, refl, sym, ap, ◌∙◌, Bool, true, false, some, String, if◌then◌else◌,
}
use hydra_fs.Prelude.Int.{ℤ}
use hydra_fs.Backend.{zadd, hset, del}
use hydra_fs.Backend.Contract.{Share}
use hydra_fs.Files.Share.{public_zset, name_hash}
use hydra_fs.Ranking.Store.{Ranks, score_of, effect, score_put}

-- The member of the ranking for a shared file.
abbrev pub file_key : Share → String
file_key f = f.md5 <> f.file_name

-- Each file that `P` holds of is ranked, and each member and field is that of such a file.
pub record Mirrors (P : Share → Type 0) (k : Ranks) : Type 0 where
  pub complete :
      (f : Share) → P f → (v : ℤ) × (score_of (file_key f) (k.zsets public_zset) ≡ some v)
  pub scored :
      (m : String) (v : ℤ)
      → score_of m (k.zsets public_zset) ≡ some v
      → (f : Share) × P f × (file_key f ≡ m) × (f.pv ≡ v)
  pub named :
      (m name : String)
      → k.hashes name_hash m ≡ some name
      → (f : Share) × P f × (file_key f ≡ m) × (f.file_name ≡ name)

pub Mirrors-same :
    (P Q : Share → Type 0) (k : Ranks)
    → ((f : Share) → P f → Q f)
    → ((f : Share) → Q f → P f)
    → Mirrors P k
    → Mirrors Q k
Mirrors-same P Q k there back h = record {
  complete = λ f q. h.complete f (back f q);
  scored = λ m v e. let (f, p, i, j) = h.scored m v e in (f, there f p, i, j);
  named = λ m n e. let (f, p, i, j) = h.named m n e in (f, there f p, i, j);
}

-- After both keys are deleted there is nothing.
pub Mirrors-nothing :
    (k : Ranks) → Mirrors (λ f. true ≡ false) (effect (del name_hash) (effect (del public_zset) k))
unfolding effect
Mirrors-nothing k = record { complete = λ f p. cc; scored = λ m v e. cc; named = λ m n e. cc }

abbrev imported : Share → Ranks → Ranks
imported g k =
    effect (hset name_hash (file_key g) g.file_name) (effect (zadd public_zset g.pv (file_key g)) k)

module _ (g : Share) (k : Ranks) where
  zset_imported :
      (m : String)
      → score_of m ((imported g k).zsets public_zset)
        ≡ (if str_eq (file_key g) m then some g.pv else score_of m (k.zsets public_zset))
  unfolding effect
  zset_imported m = score_put m (file_key g) g.pv (k.zsets public_zset)

  hash_imported :
      (m : String)
      → (imported g k).hashes name_hash m
        ≡ (if str_eq (file_key g) m then some g.file_name else k.hashes name_hash m)
  unfolding effect
  hash_imported m = refl

  -- An import adds the file.
  pub Mirrors-imported :
      (P : Share → Type 0)
      → Mirrors P k
      → Mirrors
          (λ f. P f ⊎ (f ≡ g))
          (effect
            (hset name_hash (file_key g) g.file_name)
            (effect (zadd public_zset g.pv (file_key g)) k))
  Mirrors-imported P h = record {
    complete = λ f p. complete f p (str_eq (file_key g) (file_key f)) refl;
    scored = λ m v e. scored m v (str_eq (file_key g) m) refl (sym (zset_imported m) ∙ e);
    named = λ m n e. named m n (str_eq (file_key g) m) refl (sym (hash_imported m) ∙ e);
  }
    where
      complete :
          (f : Share)
          → P f ⊎ (f ≡ g)
          → (b : Bool) → str_eq (file_key g) (file_key f) ≡ b
          → (v : ℤ) × (score_of (file_key f) ((imported g k).zsets public_zset) ≡ some v)
      complete f p true e = (g.pv, zset_imported (file_key f) ∙ rw e refl)
      complete f (inl p) false e =
          let (v, i) = h.complete f p in (v, zset_imported (file_key f) ∙ rw e i)
      complete f (inr same) false e = cc (eq_refl (file_key g), ap file_key same)

      scored :
          (m : String) (v : ℤ) (b : Bool)
          → str_eq (file_key g) m ≡ b
          → (if b then some g.pv else score_of m (k.zsets public_zset)) ≡ some v
          → (f : Share) × (P f ⊎ (f ≡ g)) × (file_key f ≡ m) × (f.pv ≡ v)
      scored m v true e i = (g, inr refl, (eq_iff (file_key g) m).0 e, some_inj i)
      scored m v false e i = let (f, p, j, l) = h.scored m v i in (f, inl p, j, l)

      named :
          (m name : String) (b : Bool)
          → str_eq (file_key g) m ≡ b
          → (if b then some g.file_name else k.hashes name_hash m) ≡ some name
          → (f : Share) × (P f ⊎ (f ≡ g)) × (file_key f ≡ m) × (f.file_name ≡ name)
      named m n true e i = (g, inr refl, (eq_iff (file_key g) m).0 e, some_inj i)
      named m n false e i = let (f, p, j, l) = h.named m n i in (f, inl p, j, l)
