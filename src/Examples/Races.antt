-- ===== src/Examples/Races.antt =====
-- Two threads that load the same index at the same time.
use pdq.Prelude.{refl, some, [], ◌∷◌, All}
use pdq.Prelude.Result.{ok}
use pdq.Text.{codes}
use pdq.Text.Decimal.{hex, decimal}
use pdq.Assoc.{lookup, pair_key, str_key}
use pdq.Fst.{list_fst}
use pdq.Index.Indexer.{index_file}
use pdq.Query.Engine.{load_set}
use pdq.Query.Engine.Races.{
  look_up_set, opened_set, put_set, Key, Threads, Steps, done, next, looks_up, opens, puts, start,
  IsResident, Keeps,
}
use pdq.Query.Engine.Races.Agreement.{Steps-start-Agrees}
use pdq.Examples.Data.{ip, two_groups_keys}
use pdq.Examples.World.{after}

abbrev key : Key list_fst
key = (codes "5", ip)

abbrev both : Threads list_fst
both = record {
  index_dir = after.index;
  cache = (key, two_groups_keys) ∷ [];
  opening = [];
  holding = [];
  answers = (key, ok (some two_groups_keys)) ∷ (key, ok (some two_groups_keys)) ∷ [];
}

race : Steps list_fst (start list_fst after.index) both
unfolding lookup load_set hex index_file decimal put_set opened_set look_up_set
race = next (looks_up key) (
    next (looks_up key) (
      next (opens [] (key ∷ []) key refl) (
        next (opens [] [] key refl) (
          next (puts [] ((key, two_groups_keys) ∷ []) key two_groups_keys refl)
            (next (puts [] [] key two_groups_keys refl) done)))))

Steps-start-Agrees_example :
    All (IsResident list_fst both.cache) both.answers × Keeps list_fst both.cache both.cache
Steps-start-Agrees_example = Steps-start-Agrees list_fst after.index both both race done
