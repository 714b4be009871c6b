-- ===== src/Examples/Provider.antt =====
-- Planning and the metadata cache.
use pdq.Prelude.{ℕ, ◌+◌, ◌≡◌, refl, none, some, [], ◌∷◌, All}
use pdq.Prelude.Result.{Result, ok, err, io}
use pdq.Text.{Str, codes}
use pdq.Assoc.{lookup, insert, str_key}
use pdq.Fst.{list_fst}
use pdq.Query.Engine.{Engine}
use pdq.Provider.Prune.{other_expr, extract_equality_filter}
use pdq.Provider.Scan.{Session, Disk, ScanFile, plan_files, scan}
use pdq.Provider.Scan.Laws.{IsInRange, plan_files-AllInRange}
use pdq.Provider.Scan.Empty.{scan-no_equality}
use pdq.Provider.Footers.{MetadataCache, Reader, stats, get, insert_metadata}
use pdq.Provider.Footers.Steps.{
  Readers, Steps, next, done, looks_up, reads, changes, start, look_up, finish, IsSound,
  Steps-start-IsSound, read_twice,
}
use pdq.Provider.Builder.{Schemas}
use pdq.Examples.World.{path, hasher, after}

abbrev engine : Engine
engine = record { file_map = (codes "5", path) ∷ []; row_group_counts = (codes "5", 2) ∷ [] }

abbrev pub disk : Disk
disk = record {
  canonicalize = λ p. some p;
  file_len = λ p. some 9;
  footer_row_groups = λ p. err io;
  object_store_path = λ p. some p;
}

abbrev pub planned : ScanFile
planned = record { path = path; size = 9; total = 2; scanned = 1 ∷ [] }

planned-one :
    plan_files disk engine ((codes "5", path) ∷ []) ((codes "5", 1 ∷ 7 ∷ []) ∷ [])
    ≡ ok (planned ∷ [])
unfolding plan_files lookup
planned-one = refl

plan_files-AllInRange_example : All IsInRange (planned ∷ [])
plan_files-AllInRange_example =
    plan_files-AllInRange disk engine ((codes "5", path) ∷ []) ((codes "5", 1 ∷ 7 ∷ []) ∷ [])
      (planned ∷ []) planned-one

abbrev pub session : Session
session = record {
  Predicate = ℕ;
  lit_true = 1;
  df_schema = ok tt;
  create_physical_expr = λ fs. ok 0;
  object_store = ok tt;
  check_projection = λ p. ok tt;
}

scan-no_equality_example :
    scan hasher list_fst after.index engine disk session none none (other_expr ∷ []) none [] ≡ (
      ok (record {
        projection = none;
        limit = none;
        predicate = none;
        metadata_size_hint = none;
        files = [];
      }),
      [],
    )
unfolding extract_equality_filter
scan-no_equality_example =
    scan-no_equality hasher list_fst after.index engine disk session none none none
      (other_expr ∷ []) [] refl

-- The files are a number that stands for their contents, and an option adds to what is read.
abbrev read_footer : ℕ → ℕ → Str → Result ℕ
read_footer files options key = ok (files + options)

abbrev filled : MetadataCache ℕ
filled = record { entries = (path, 3) ∷ []; hits = 1; misses = 1 }

-- The second reader asks with another option, after the file was written anew.
abbrev served : Readers read_footer
served = record {
  files = 5;
  cache = filled;
  reading = [];
  answers = (path, 3) ∷ (path, 3) ∷ [];
  parsed = record { files = 3; options = 0; key = path; metadata = 3 } ∷ [];
}

Steps-start-IsSound_example : IsSound read_footer served
unfolding look_up get lookup finish insert_metadata insert
Steps-start-IsSound_example = Steps-start-IsSound read_footer 3 (
    next (looks_up path 0)
      (next (reads [] [] path 0 3 refl refl) (next (changes 5) (next (looks_up path 1) done))))

read_twice_example :
    (r : Readers read_footer) × Steps read_footer (start read_footer 3) r × (stats r.cache ≡ (0, 2))
read_twice_example = read_twice read_footer 3 0 path 3 refl

abbrev reader : Reader
reader = record { key = path; file_size = 9; footer_size_hint = none }

abbrev once : MetadataCache ℕ
once = record { entries = (path, 3) ∷ []; hits = 0; misses = 1 }

abbrev pub schemas : Schemas
schemas = record { Schema = ℕ; schema_of = λ p. ok 4; try_merge = λ a b. ok a }
