-- ===== src/Parts/Late.antt =====
-- A result that comes after the part was claimed by another session, in
-- common/storage_metadata_store.cpp.
use package.text.Mathlib.Text.{◌==◌ as str_eq}
use hydra_fs.Prelude.{
  ℕ, ◌≡◌, ◌≢◌, sym, ap, subst, ◌∙◌, ◌⊎◌, inl, inr, false, none, some, some_inj, String,
}
use hydra_fs.Parts.{PartClaim, PartSystem, id_of, claim_part_upload, mark_part_ready}
use hydra_fs.Parts.Contract.{Chunk, Part, PartTables, PartState, PartContract}
use hydra_fs.Parts.Rules.{Outcome}
use hydra_fs.Parts.Fenced.{Names, mark_part_ready-Fenced}
use hydra_fs.Parts.Claim.{Claimed, claim_part_upload-Claimed}

same_chunk :
    (t : PartTables) (upload_id : String) (i : ℕ) {id k : ℕ} {c d : Chunk}
    → Names t upload_id i id
    → Names t upload_id i k
    → t.chunks id ≡ some c
    → t.chunks k ≡ some d
    → c ≡ d
same_chunk t upload_id i {id} {k} (p, e, f) (p', e', f') found found' =
    let one : p ≡ p' = some_inj (sym e ∙ e') in
    let same : id ≡ k = f ∙ ap (λ (p : Part). id_of p.chunk_id) one ∙ sym f' in
    some_inj (sym found ∙ ap t.chunks same ∙ found')

module _ {W : Type 0} (sys : PartSystem W) (view : W → PartState)
    (behaves : PartContract sys view) where
  -- After a claim on a part was granted to a session, whatever result another session, or one with
  -- another epoch, still reports for the same chunk, MarkPartReady fails and changes no row.
  pub mark_part_ready-late :
      (owner : String) (i : ℕ) (w : W) (claim : PartClaim) (late : String) (j epoch : ℕ)
      (backend : String)
      → str_eq owner "" ≡ false
      → (view w).saved ≡ none
      → (claim_part_upload sys owner i w).0 ≡ some claim
      → (late ≢ owner) ⊎ (epoch ≢ claim.lease_epoch)
      → Names (view (claim_part_upload sys owner i w).1).tables late j claim.chunk_id
      → let w1 = (claim_part_upload sys owner i w).1 in
        let r = mark_part_ready sys late j late epoch backend w1 in
        (r.0 ≡ none) × ((view r.1).tables ≡ (view w1).tables)
  mark_part_ready-late owner i w claim late j epoch backend named h granted other part =
      let held : Claimed owner claim (view (claim_part_upload sys owner i w).1) =
        subst
          (λ o.
            Outcome (view w).tables (λ u. Unit {0}) (Claimed owner) o
              (view (claim_part_upload sys owner i w).1))
          granted (claim_part_upload-Claimed sys view behaves owner i w named h) in
      elim (mark_part_ready-Fenced sys view behaves late j late epoch backend
        (claim_part_upload sys owner i w).1 held.0) [
          | inl same ↦ same
          | inr (done, (id, n, (c, found, up, mine, epoch_is), e)) ↦
              let one : c ≡ held.1.0 =
                same_chunk (view (claim_part_upload sys owner i w).1).tables late j n part found
                  held.1.1.0 in
              let mine_now : some late ≡ some owner =
                sym mine ∙ ap (λ (c : Chunk). c.owner_upload_id) one ∙ held.1.1.2 in
              let epoch_now : epoch ≡ claim.lease_epoch =
                sym epoch_is ∙ ap (λ (c : Chunk). c.lease_epoch) one ∙ held.1.2 in
              elim other [
                | inl no_name ↦ absurd (no_name (some_inj mine_now))
                | inr no_epoch ↦ absurd (no_epoch epoch_now)
              ]
        ]
