-- ===== src/Provider/Footers/Steps.antt =====
-- Readers of the metadata cache that run at the same time: between the look-up and the insertion of
-- one, the others go on.
use mathlib.Core.Option.{some-injective}
use pdq.Prelude.{
  ◌+◌, ◌%◌, ◌≡◌, refl, Option, none, some, List, [], ◌∷◌, ◌++◌, arith, Bool-cases, ◌⊎◌,
  Option-cases, inl, inr, length, All,
}
use pdq.Prelude.Result.{Result, ok}
use pdq.Text.{Str}
use pdq.Text.Decimal.{word}
use pdq.Assoc.{lookup, lookup-insert, str_key}
use pdq.Provider.Footers.{MetadataCache, empty_cache, get, insert_metadata, stats}

module _ {Files Options Metadata : Type 0}
    (read_footer : Files → Options → Str → Result Metadata) where
  -- A reader that missed, with the options that it was asked with.
  abbrev pub Reading : Type 0
  Reading = Str × Options

  -- A footer that was read: the files at that time, the options, the key and the metadata.
  pub record Parse : Type 0 where
    pub files : Files
    pub options : Options
    pub key : Str
    pub metadata : Metadata

  -- The files, which may change at any time; the shared cache; the readers that missed and are reading
  -- a footer; what the readers that are done returned; and the footers that were read, the last first.
  pub record Readers : Type 0 where
    pub files : Files
    pub cache : MetadataCache Metadata
    pub reading : List Reading
    pub answers : List (Str × Metadata)
    pub parsed : List Parse

  abbrev looked_up : Str → Options → Option Metadata × MetadataCache Metadata → Readers → Readers
  looked_up key options (some md, cache') r = record r {
    cache = cache';
    answers = (key, md) ∷ r.answers;
  }
  looked_up key options (none, cache') r = record r {
    cache = cache';
    reading = (key, options) ∷ r.reading;
  }

  -- The first half of `get_metadata`, before the `await`.
  unfoldable pub look_up : Str → Options → Readers → Readers
  unfolding get
  look_up key options r = looked_up key options (get key r.cache) r

  -- The second half: the footer has been read.
  unfoldable pub finish : Str → Options → Metadata → List Reading → Readers → Readers
  unfolding insert_metadata
  finish key options md others r = record {
    files = r.files;
    cache = insert_metadata key md r.cache;
    reading = others;
    answers = (key, md) ∷ r.answers;
    parsed = record { files = r.files; options = options; key = key; metadata = md } ∷ r.parsed;
  }

  pub data Step : Readers → Readers → Type 0 where
    looks_up : {r : Readers} (key : Str) (options : Options) → Step r (look_up key options r)
    reads :
        {r : Readers} (before after : List Reading) (key : Str) (options : Options) (md : Metadata)
        → r.reading ≡ before ++ (key, options) ∷ after
        → read_footer r.files options key ≡ ok md
        → Step r (finish key options md (before ++ after) r)
    fails :
        {r : Readers} (before after : List Reading) (one : Reading)
        → r.reading ≡ before ++ one ∷ after
        → Step r (record r { reading = before ++ after })
    -- a file is written, replaced or removed
    changes : {r : Readers} (files : Files) → Step r (record r { files = files })

  pub data Steps : Readers → Readers → Type 0 where
    done : {r : Readers} → Steps r r
    next : {r s t : Readers} → Step r s → Steps s t → Steps r t

  abbrev pub start : Files → Readers
  start files = record {
    files = files;
    cache = empty_cache;
    reading = [];
    answers = [];
    parsed = [];
  }

  -- The metadata was read for this key.
  abbrev pub WasParsed : List Parse → Str × Metadata → Type 0
  WasParsed [] a = ⊥
  WasParsed (p ∷ ps) a = ((p.key, p.metadata) ≡ a) ⊎ WasParsed ps a

  -- It is what the inner reader gave.
  abbrev pub IsParse : Parse → Type 0
  IsParse p = read_footer p.files p.options p.key ≡ ok p.metadata

  pub record IsSound (r : Readers) : Type 0 where
    pub cached :
        (key : Str) (md : Metadata)
        → lookup key r.cache.entries ≡ some md
        → WasParsed r.parsed (key, md)
    pub answered : All (WasParsed r.parsed) r.answers
    pub parses : All IsParse r.parsed
    pub missed : r.cache.misses % word ≡ length r.parsed % word
    pub counted : (r.cache.hits + r.cache.misses) % word ≡ length r.answers % word

  WasParsed-cons :
      (p : Parse) (ps : List Parse) (answers : List (Str × Metadata))
      → All (WasParsed ps) answers
      → All (WasParsed (p ∷ ps)) answers
  WasParsed-cons p ps [] h = tt
  WasParsed-cons p ps (a ∷ answers) (h, hs) = (inr h, WasParsed-cons p ps answers hs)

  look_up-IsSound :
      {r : Readers} (key : Str) (options : Options) → IsSound r → IsSound (look_up key options r)
  unfolding look_up get
  look_up-IsSound {r} key options h = elim (Option-cases (lookup key r.cache.entries)) [
    | inl e ↦
        rw (look_up, get, e)
          (record {
            cached = h.cached;
            answered = h.answered;
            parses = h.parses;
            missed = h.missed;
            counted = h.counted;
          })
    | inr (md, e) ↦
        rw (look_up, get, e)
          (record {
            cached = h.cached;
            answered = (h.cached key md e, h.answered);
            parses = h.parses;
            missed = h.missed;
            counted = (let c = h.counted in omega arith);
          })
  ]

  finish-IsSound :
      {r : Readers} (key : Str) (options : Options) (md : Metadata) (others : List Reading)
      → read_footer r.files options key ≡ ok md
      → IsSound r
      → IsSound (finish key options md others r)
  unfolding finish insert_metadata
  finish-IsSound {r} key options md others f h = record {
    cached = λ k m e.
        let e' = rw lookup-insert at e in
        elim (Bool-cases (str_key.beq key k)) [
          | inl same ↦
              let p : key ≡ k = (str_key.beq_iff key k).0 same in
              let q : some md ≡ some m = (rw same at e') in
              let q' : md ≡ m = some-injective md m q in inl (rw (p, q') refl)
          | inr other ↦ inr (h.cached k m (rw other at e'))
        ];
    answered = (
      inl refl,
      WasParsed-cons (record { files = r.files; options = options; key = key; metadata = md })
          r.parsed r.answers h.answered,
    );
    parses = (f, h.parses);
    missed = (let c = h.missed in omega arith);
    counted = (let c = h.counted in omega arith);
  }

  Step-IsSound : {r s : Readers} → Step r s → IsSound r → IsSound s
  Step-IsSound (looks_up key options) h = look_up-IsSound key options h
  Step-IsSound (reads before after key options md e f) h =
      finish-IsSound key options md (before ++ after) f h
  Step-IsSound (fails before after one e) h = record {
    cached = h.cached;
    answered = h.answered;
    parses = h.parses;
    missed = h.missed;
    counted = h.counted;
  }
  Step-IsSound (changes files) h = record {
    cached = h.cached;
    answered = h.answered;
    parses = h.parses;
    missed = h.missed;
    counted = h.counted;
  }

  Steps-IsSound : {r s : Readers} → Steps r s → IsSound r → IsSound s
  Steps-IsSound done h = h
  Steps-IsSound (next x xs) h = Steps-IsSound xs (Step-IsSound x h)

  start-IsSound : (files : Files) → IsSound (start files)
  unfolding lookup
  start-IsSound files = record {
    cached = λ k m e. cc;
    answered = tt;
    parses = tt;
    missed = refl;
    counted = refl;
  }

  -- However the readers interleave, with whatever options, and however the files change meanwhile:
  -- what the metadata cache holds for a key, and what a reader of the key got, is what some reader of
  -- this key had read from its footer, as the files were then and with its own options, which need
  -- not be those of the reader that is served; misses count the footers that were read, and hits and
  -- misses add up to the reads that succeeded, both modulo 2 ^ 64.
  pub Steps-start-IsSound : (files : Files) {r : Readers} → Steps (start files) r → IsSound r
  Steps-start-IsSound files xs = Steps-IsSound xs (start-IsSound files)

  -- For every file whose footer can be read there is an interleaving in which it is read twice:
  -- two misses are counted, and no hit.
  pub read_twice :
      (files : Files) (options : Options) (key : Str) (md : Metadata)
      → read_footer files options key ≡ ok md
      → (r : Readers) × Steps (start files) r × (stats r.cache ≡ (0, 2))
  unfolding look_up get lookup finish insert_metadata stats
  read_twice files options key md f = (
    _,
    next (looks_up key options) (
        next (looks_up key options) (
          next (reads [] ((key, options) ∷ []) key options md refl f)
            (next (reads [] [] key options md refl f) done))),
    refl,
  )
