-- ===== src/Fst.antt =====
-- What the code relies on of the crate `fst`, which is not part of the repository: an ordered set of
-- byte strings is built in a file image from ascending keys, opened again, and streamed over a
-- half-open range of keys.
use mathlib.Core.Option.{some-injective}
use pdq.Prelude.{
  ap, sym, ◌∙◌, none, ◌≡◌, refl, Bool, true, ◌&&◌, Option, some, List, [], ◌∷◌, All, filter,
}
use pdq.Text.{Bytes}
use pdq.Text.Order.{lt_bytes, le_bytes}

-- `range().ge(lo).lt(hi)`
abbrev pub in_range : Bytes → Bytes → Bytes → Bool
in_range lo hi key = le_bytes lo key && lt_bytes key hi

-- Strictly ascending keys.
abbrev pub IsAscendingKeys : List Bytes → Type 0
IsAscendingKeys [] = Unit
IsAscendingKeys (k ∷ ks) = All (λ j. lt_bytes k j ≡ true) ks × IsAscendingKeys ks

pub record Fst : Type 1 where
  -- the contents of a `.fst` file
  pub Image : Type 0
  -- `Set<Mmap>`
  pub Keys : Type 0
  -- `SetBuilder::new`, an `insert` for each key, `finish`
  pub build : List Bytes → Option Image
  -- `Set::new`
  pub open_image : Image → Option Keys
  -- `range().ge(lo).lt(hi).into_stream()`, drained by `next`
  pub stream : Keys → Bytes → Bytes → List Bytes
  -- What `File::create` leaves before anything is written, which `Set::new` refuses.
  pub truncated : Image
  pub truncated_opens : open_image truncated ≡ none
  -- Ascending keys are accepted, what is built can be opened, and it holds the keys.
  pub build_accepts :
      (ks : List Bytes) → IsAscendingKeys ks → (image : Image) × (build ks ≡ some image)
  pub build_opens :
      (ks : List Bytes) (image : Image)
      → build ks ≡ some image
      → (keys : Keys) × (open_image image ≡ some keys)
  pub stream-build :
      (ks : List Bytes) (image : Image) (keys : Keys) (lo hi : Bytes)
      → IsAscendingKeys ks
      → build ks ≡ some image
      → open_image image ≡ some keys
      → stream keys lo hi ≡ filter (in_range lo hi) ks

pub open_built :
    (ks : List Bytes) (image : Option (List Bytes)) → some (some ks) ≡ some image → image ≡ some ks
open_built ks image e = cc

pub stream-filter :
    (ks keys : List Bytes) (image : Option (List Bytes)) (lo hi : Bytes)
    → some (some ks) ≡ some image
    → image ≡ some keys
    → filter (in_range lo hi) keys ≡ filter (in_range lo hi) ks
stream-filter ks keys image lo hi e f =
    ap (filter (in_range lo hi)) (some-injective keys ks (sym f ∙ open_built ks image e))

-- A set kept as the list of its keys meets this.
abbrev pub list_fst : Fst
list_fst = record {
  Image = Option (List Bytes);
  Keys = List Bytes;
  build = λ ks. some (some ks);
  open_image = λ image. image;
  stream = λ ks lo hi. filter (in_range lo hi) ks;
  truncated = none;
  truncated_opens = refl;
  build_accepts = λ ks h. (some ks, refl);
  build_opens = λ ks image e. (ks, open_built ks image e);
  stream-build = λ ks image keys lo hi h e f. stream-filter ks keys image lo hi e f;
}
