-- ===== src/Examples/Bloom.antt =====
-- Probing bloom filters that are kept as lists of values.
use pdq.Prelude.{◌*◌, ◌≡◌, refl, Bool, some, List, [], ◌∷◌, any}
use pdq.Prelude.Result.{ok}
use pdq.Text.{Str, codes, str_eq}
use pdq.BloomProbe.{reader, ProbedFile, column_index, probe_blooms_multi}
use pdq.BloomProbe.Batch.{count_probes, bytes_read, bytes_of_probes, probe_blooms_multi-eq}

abbrev check : List Str → Str → Bool
check filter value = any (λ v. str_eq v value) filter

abbrev probed : ProbedFile (List Str) check
probed = record {
  columns = codes "ip" ∷ [];
  opening = 8;
  groups =
      reader 5 (λ c. some (codes "a" ∷ []))
      ∷ reader 5 (λ c. some (codes "a" ∷ codes "b" ∷ []))
      ∷ [];
}

probe_blooms_multi-eq_example :
    (probe_blooms_multi (List Str) check probed (codes "ip") (codes "a" ∷ codes "c" ∷ [])
      ≡ ok (
        count_probes (List Str) check probed (codes "ip") (codes "a" ∷ codes "c" ∷ []),
        bytes_read (List Str) check probed,
      ))
    × (bytes_of_probes (List Str) check probed (codes "ip") (codes "a" ∷ codes "c" ∷ [])
        ≡ 2 * bytes_read (List Str) check probed)
unfolding column_index
probe_blooms_multi-eq_example =
    probe_blooms_multi-eq (List Str) check probed (codes "ip") 0 refl refl
      (codes "a" ∷ codes "c" ∷ [])
