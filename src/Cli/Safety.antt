-- ===== src/Cli/Safety.antt =====
-- No `unwrap` of `main` panics, given what clap hands back for the arguments that are declared.
use mathlib.Core.Option.{some-injective}
use pdq.Prelude.{
  ℕ, ◌≤◌, ◌≡◌, refl, sym, ap, ◌∙◌, Bool, true, false, ◌&&◌, none, some, List, [], any, Bool-cases,
  inl, inr,
}
use pdq.Prelude.Result.{ok}
use pdq.Prelude.Exec.{Exec}
use pdq.Prelude.Exit.{
  Run, finish, unwrap, finished, is_panic, NeverPanics, NeverPanics-finish, NeverPanics-exit,
  NeverPanics-try, NeverPanics-unwrap, NeverPanics-bind, NeverPanics-after, of_result-calm,
  >>=-finished, unwrap-inv, try-inv, ◌>>=◌,
}
use pdq.Text.{Str, codes, str_eq, str_eq_iff}
use pdq.Text.Decimal.{parse_usize}
use pdq.Assoc.{lookup, str_key}
use pdq.Index.World.{World}
use pdq.Index.Indexer.{build_index, prune_orphans}
use pdq.CorpusGen.Write.{Arrow, Disk, write_corpus}
use pdq.CorpusGen.Write.Safety.{write_corpus-NeverPanics}
use pdq.Cli.{Report, unknown_search_type, no_results, found, search_command}
use pdq.Cli.Args.{
  Arg, Matches, is_value_arg, is_flag_arg, get_one, get_flag, AllSupplied, index_args, search_args,
  query_args, gen_corpus_args, subcommands,
}
use pdq.Cli.Query.{Platform, Out, query_report}
use pdq.Cli.Commands.{
  System, optional, string_arg, flag, answered, generated, on_index, on_out, on_corpus, prune_if,
  index_command, say_or_exit, search_main, query_command, number_arg, gen_corpus_command, main,
}

module _ (p : Platform) where
  on_index-NeverPanics : {T : Type 0} (m : Exec (World p.fst) T) → NeverPanics (on_index p m)
  on_index-NeverPanics m = record { calm = λ s. of_result-calm (m s.index).0 }

  on_out-NeverPanics : {T : Type 0} (m : Exec (Out p) T) → NeverPanics (on_out p m)
  on_out-NeverPanics m = record { calm = λ s. of_result-calm (m s.out).0 }

  on_corpus-NeverPanics :
      {T : Type 0} (m : Run (Disk p.arrow) T) → NeverPanics m → NeverPanics (on_corpus p m)
  on_corpus-NeverPanics m h = record { calm = λ s. h.calm s.corpus }

  get_one-declared :
      (m : Matches) (name : Str)
      → any (is_value_arg name) m.declared ≡ true
      → get_one m name ≡ finished (m.values name)
  unfolding get_one
  get_one-declared m name declared = rw (get_one, declared) refl

  optional-eq :
      (m : Matches) (name : Str)
      → any (is_value_arg name) m.declared ≡ true
      → optional p m name ≡ (λ s. (finished (m.values name), s))
  unfolding optional
  optional-eq m name declared = ap (λ x s. (x, s)) (get_one-declared m name declared)

  optional-NeverPanics :
      (m : Matches) (name : Str)
      → any (is_value_arg name) m.declared ≡ true
      → NeverPanics (optional p m name)
  optional-NeverPanics m name declared =
      rw (optional-eq m name declared) (NeverPanics-finish (m.values name))

  string_arg-eq :
      (m : Matches) (name : Str)
      → any (is_value_arg name) m.declared ≡ true
      → string_arg p m name ≡ unwrap (m.values name)
  unfolding string_arg
  string_arg-eq m name declared = ap (λ o. o >>= unwrap) (optional-eq m name declared)

  -- An argument that is declared and for which clap has a value.
  string_arg-NeverPanics :
      (m : Matches) (name : Str)
      → any (is_value_arg name) m.declared ≡ true
      → (value : Str) × (m.values name ≡ some value)
      → NeverPanics (string_arg p m name)
  string_arg-NeverPanics m name declared (value, e) =
      rw (string_arg-eq m name declared) (NeverPanics-unwrap (m.values name) value e)

  flag-NeverPanics :
      (m : Matches) (name : Str)
      → any (is_flag_arg name) m.declared ≡ true
      → NeverPanics (flag p m name)
  unfolding flag get_flag
  flag-NeverPanics m name declared =
      rw (flag, get_flag, declared) (NeverPanics-finish (m.flags name))

  number_arg-NeverPanics :
      (m : Matches) (name : Str)
      → any (is_value_arg name) m.declared ≡ true
      → (value : Str) × (m.values name ≡ some value)
      → NeverPanics (number_arg p m name)
  unfolding number_arg
  number_arg-NeverPanics m name declared given =
      NeverPanics-bind (string_arg p m name) _ (string_arg-NeverPanics m name declared given)
        (λ text. NeverPanics-try (parse_usize text))

  number_arg-inv :
      (m : Matches) (name : Str) (s s' : System p) (n : ℕ)
      → any (is_value_arg name) m.declared ≡ true
      → number_arg p m name s ≡ (finished n, s')
      → (text : Str) × (m.values name ≡ some text) × (parse_usize text ≡ ok n)
  unfolding number_arg
  number_arg-inv m name s s' n declared e =
      let a = >>=-finished (string_arg p m name) _ s s' n e in
      let first = ap (λ q. q s) (sym (string_arg-eq m name declared)) ∙ a.first in
      (
        a.value,
        unwrap-inv (m.values name) s a.middle a.value first,
        (try-inv (parse_usize a.value) a.middle s' n a.second).0,
      )

  -- What follows an argument.
  NeverPanics-arg_then :
      {T : Type 0} (m : Matches) (name : Str) (k : Str → Run (System p) T)
      → any (is_value_arg name) m.declared ≡ true
      → (value : Str) × (m.values name ≡ some value)
      → ((value : Str) → NeverPanics (k value))
      → NeverPanics (string_arg p m name >>= k)
  NeverPanics-arg_then m name k declared given h =
      NeverPanics-bind (string_arg p m name) k (string_arg-NeverPanics m name declared given) h

  prune_if-NeverPanics : (prune : Bool) → NeverPanics (prune_if p prune)
  unfolding prune_if
  prune_if-NeverPanics true =
      NeverPanics-bind (on_index p (prune_orphans p.fst)) (λ n. finish (some n))
        (on_index-NeverPanics (prune_orphans p.fst)) (λ n. NeverPanics-finish (some n))
  prune_if-NeverPanics false = NeverPanics-finish none

  index_command-NeverPanics :
      (m : Matches)
      → index_args ≡ m.declared
      → AllSupplied m index_args
      → NeverPanics (index_command p m)
  unfolding index_command
  index_command-NeverPanics m known (path, (column, (output, _))) =
      NeverPanics-arg_then m _ _ (rw (← known) refl) (path refl) λ d.
        NeverPanics-arg_then m _ _ (rw (← known) refl) (column refl) λ c.
          NeverPanics-arg_then m _ _ (rw (← known) refl) (output refl) λ o.
            NeverPanics-bind _ _ (flag-NeverPanics m (codes "prune") (rw (← known) refl)) λ f.
              NeverPanics-bind _ _ (prune_if-NeverPanics f) λ n.
                NeverPanics-bind _ _
                  (on_index-NeverPanics (build_index p.fst p.hasher (p.walk d) c))
                  λ u. NeverPanics-finish _

  say_or_exit-NeverPanics : (r : Report) → NeverPanics (say_or_exit p r)
  say_or_exit-NeverPanics unknown_search_type = NeverPanics-exit 1
  say_or_exit-NeverPanics no_results = NeverPanics-finish _
  say_or_exit-NeverPanics (found total files matches) = NeverPanics-finish _

  search_main-NeverPanics :
      (m : Matches)
      → search_args ≡ m.declared
      → AllSupplied m search_args
      → NeverPanics (search_main p m)
  unfolding search_main
  search_main-NeverPanics m known (column, (term, (index_dir, (search_type, _)))) =
      NeverPanics-arg_then m _ _ (rw (← known) refl) (column refl) λ c.
        NeverPanics-arg_then m _ _ (rw (← known) refl) (term refl) λ t.
          NeverPanics-arg_then m _ _ (rw (← known) refl) (index_dir refl) λ d.
            NeverPanics-arg_then m _ _ (rw (← known) refl) (search_type refl) λ s.
              NeverPanics-bind _ _
                (NeverPanics-try (search_command p.fst (p.read_index d) c t s []).0)
                (λ r. say_or_exit-NeverPanics r)

  query_command-NeverPanics :
      (m : Matches)
      → query_args ≡ m.declared
      → AllSupplied m query_args
      → NeverPanics (query_command p m)
  unfolding query_command
  query_command-NeverPanics m known (column, (term, (index_dir, (data_path, (format, _))))) =
      NeverPanics-arg_then m _ _ (rw (← known) refl) (column refl) λ c.
        NeverPanics-arg_then m _ _ (rw (← known) refl) (term refl) λ t.
          NeverPanics-arg_then m _ _ (rw (← known) refl) (index_dir refl) λ d.
            NeverPanics-arg_then m _ _ (rw (← known) refl) (data_path refl) λ a.
              NeverPanics-arg_then m _ _ (rw (← known) refl) (format refl) λ f.
                NeverPanics-bind _ _ (optional-NeverPanics m (codes "output") (rw (← known) refl))
                  λ o.
                    NeverPanics-bind _ _ (on_out-NeverPanics (query_report p c t d a f o))
                      (λ r. NeverPanics-finish (answered r))

  -- The number of rows asked for, if it is one, leaves room for the planted values, and the crate
  -- makes a writer for it without a panic.
  abbrev pub HasRoom : Matches → Type 0
  HasRoom m =
      (text : Str) (n : ℕ)
      → m.values (codes "rows-per-group") ≡ some text
      → parse_usize text ≡ ok n
      → (3 ≤ n) × (is_panic (Arrow.writer p.arrow n) ≡ false)

  gen_corpus_command-NeverPanics :
      (m : Matches)
      → gen_corpus_args ≡ m.declared
      → AllSupplied m gen_corpus_args
      → HasRoom m
      → NeverPanics (gen_corpus_command p m)
  unfolding gen_corpus_command
  gen_corpus_command-NeverPanics m known (out, (files, (row_groups, (rows, (seed, _))))) room =
      NeverPanics-arg_then m _ _ (rw (← known) refl) (out refl) λ o.
        NeverPanics-bind _ _
          (number_arg-NeverPanics m (codes "files") (rw (← known) refl) (files refl))
          λ f.
            NeverPanics-bind _ _
              (number_arg-NeverPanics m (codes "row-groups") (rw (← known) refl) (row_groups refl))
              λ g.
                NeverPanics-after (number_arg p m (codes "rows-per-group")) _
                  (number_arg-NeverPanics m (codes "rows-per-group") (rw (← known) refl)
                    (rows refl))
                  λ s s' n e.
                    let (text, given, parsed) =
                      number_arg-inv m (codes "rows-per-group") s s' n (rw (← known) refl) e in
                    let (enough, made) = room text n given parsed in
                    NeverPanics-bind _ _
                      (number_arg-NeverPanics m (codes "seed") (rw (← known) refl) (seed refl))
                      λ k.
                        NeverPanics-bind _ _
                          (on_corpus-NeverPanics (write_corpus p.arrow o f g n k)
                            (write_corpus-NeverPanics p.arrow o f g n k enough made))
                          λ u. NeverPanics-finish (generated f o)

  -- The arguments declared for a subcommand, by its name.
  args_of :
      (shootout : Bool) (literal name : Str) (expected args : List Arg)
      → lookup literal (subcommands shootout) ≡ some expected
      → str_eq name literal ≡ true
      → lookup name (subcommands shootout) ≡ some args
      → expected ≡ args
  args_of shootout literal name expected args known same declared =
      let e : name ≡ literal = (str_eq_iff name literal).0 same in
      some-injective expected args (sym known ∙ (rw e at declared))

  gen_corpus-declared :
      (shootout : Bool) (name : Str) (args : List Arg)
      → (shootout && str_eq name (codes "gen-corpus")) ≡ true
      → lookup name (subcommands shootout) ≡ some args
      → gen_corpus_args ≡ args
  unfolding lookup
  gen_corpus-declared true name args same declared =
      args_of true (codes "gen-corpus") name gen_corpus_args args refl same declared
  gen_corpus-declared false name args same declared = cc

  -- Whatever subcommand is given, with and without the feature `shootout`: if clap hands back, for the
  -- arguments that `main` declares for this subcommand, a value for each that is required or has a
  -- default value, and the number of rows asked for, if there is one, is at least three and one for
  -- which the crate makes a writer without a panic, then `main` reads no argument that is not declared
  -- or has no value, and does not panic there nor in `write_corpus`; the indexer, the searches and
  -- the query are modelled as actions without panics.
  pub main-NeverPanics :
      (shootout : Bool) (name : Str) (m : Matches)
      → lookup name (subcommands shootout) ≡ some m.declared
      → AllSupplied m m.declared
      → HasRoom m
      → NeverPanics (main p shootout (some (name, m)))
  unfolding main lookup
  main-NeverPanics shootout name m declared supplied room =
      elim (Bool-cases (str_eq name (codes "index"))) [
        | inl index ↦
            let a =
              args_of shootout (codes "index") name index_args m.declared refl index declared in
            rw (main, index) (index_command-NeverPanics m a (rw (← a) at supplied))
        | inr n1 ↦ elim (Bool-cases (str_eq name (codes "search"))) [
          | inl search_name ↦
              let a =
                args_of shootout (codes "search") name search_args m.declared refl search_name
                  declared in
              rw (main, n1, search_name) (search_main-NeverPanics m a (rw (← a) at supplied))
          | inr n2 ↦ elim (Bool-cases (str_eq name (codes "query"))) [
            | inl query ↦
                let a =
                  args_of shootout (codes "query") name query_args m.declared refl query declared in
                rw (main, n1, n2, query) (query_command-NeverPanics m a (rw (← a) at supplied))
            | inr n3 ↦ elim (Bool-cases (shootout && str_eq name (codes "gen-corpus"))) [
              | inl gen ↦
                  let a = gen_corpus-declared shootout name m.declared gen declared in
                  rw (main, n1, n2, n3, gen)
                    (gen_corpus_command-NeverPanics m a (rw (← a) at supplied) room)
              | inr n4 ↦ rw (main, n1, n2, n3, n4) (NeverPanics-exit 1)
            ]
          ]
        ]
      ]
