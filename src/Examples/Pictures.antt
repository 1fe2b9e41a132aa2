-- ===== src/Examples/Pictures.antt =====
-- The theorems on shared pictures at a concrete state.
use package.text.Mathlib.Text.{◌==◌ as str_eq}
use package.text.Mathlib.TextEquality.{eq_iff}
use hydra_fs.Prelude.{
  ◌≡◌, ◌≢◌, refl, sym, ◌∙◌, ◌+◌, some_inj, ◌⊎◌, inl, inr, Bool, true, false, Bool-cases, none, some,
  String, [], ◌∷◌, if◌then◌else◌, arith,
}
use hydra_fs.Prelude.Int.{pos}
use hydra_fs.Backend.{nil}
use hydra_fs.Backend.Contract.{FileInfo, State}
use hydra_fs.Backend.Memory.{Memory, memory, view, memory-Contract}
use hydra_fs.Files.Invariant.{refs, Covers, IsSafe}
use hydra_fs.Pictures.{PictureNames, request_share_picture, cancel_share_picture}
use hydra_fs.Pictures.Invariant.{IsShared, IsListed, shown}
use hydra_fs.Pictures.Request.{request_share_picture-IsShared}
use hydra_fs.Pictures.Cancel.{cancel_share_picture-IsListed}

abbrev info : FileInfo
info = record { file_id = "M00/a"; count = pos 2 }

-- Ann has uploaded one file and shares a picture of it.
abbrev album : State
album = record {
  tables = record {
    users = [];
    file_info = λ k. if str_eq "aa" k then some info else none;
    user_files =
        record { user = "ann"; md5 = "aa"; file_name = "a.png"; shared_status = pos 0 } ∷ [];
    user_counts = λ k. if str_eq "ann_share_picture_list_count" k then some (pos 1) else none;
    shares = [];
    pictures = record { user = "ann"; md5 = "aa"; url_md5 = "u1" } ∷ [];
    active_tasks = λ u m t. 0;
  };
  saved = none;
  stored = λ k. str_eq "M00/a" k;
}

covers :
    (b : Bool)
    → Covers (if b then 1 else 0) (if b then some info else none)
      × Covers ((if b then 1 else 0) + (if b then 1 else 0)) (if b then some info else none)
covers true = (omega arith, omega arith)
covers false = (refl, refl)

found : (k : String) (i : FileInfo) → album.tables.file_info k ≡ some i → (k ≡ "aa") × (i ≡ info)
found k i e = elim (Bool-cases (str_eq "aa" k)) [
  | inl t ↦
      let same : some info ≡ some i = rw t at e in (sym ((eq_iff "aa" k).0 t), sym (some_inj same))
  | inr f ↦ cc (rw f at e)
]

album-IsShared : IsShared album
unfolding refs shown
album-IsShared = record {
  safe = record {
    now = record {
      counted = λ k. (covers (str_eq "aa" k)).0;
      kept = λ k i e. rw ((found k i e).1) refl;
      distinct = λ k k' i j e e' q. (found k i e).0 ∙ sym (found k' j e').0;
    };
    before = λ t e. cc;
  };
  settled = refl;
  covered = λ k. (covers (str_eq "aa" k)).1;
}

abbrev album_world : Memory
album_world = record { state = album; faults = []; replies = λ c. nil }

abbrev picture_names : PictureNames Memory
picture_names = record {
  md5_hex = λ text. text;
  decimals = λ m. ("0123", m);
  key = λ m. ("1234", m);
}

request_example :
    let r = request_share_picture memory picture_names "ann" "aa" "a.png" album_world in
    IsShared (view r.1) ⊎ ((r.0 ≢ some (pos 0)) × IsSafe (view r.1))
request_example =
    request_share_picture-IsShared memory view memory-Contract picture_names (λ w. refl) (λ w. refl)
      "ann" "aa" "a.png" album_world album-IsShared

cancel_example : IsListed (view (cancel_share_picture memory "ann" "u1" album_world).1)
cancel_example =
    cancel_share_picture-IsListed memory view memory-Contract "ann" "u1" album_world album-IsShared
