-- ===== src/Provider/Footers.antt =====
-- `MetadataCache`, `ParquetReaderWithCache` and `create_reader` of provider.rs. What the crate
-- `parquet` makes of a footer is a parameter, and the counters wrap at 2 ^ 64.
pub mod Steps
use pdq.Prelude.{ℕ, ◌+◌, ◌%◌, Option, none, some, []}
use pdq.Prelude.Result.{Result, ok, err}
use pdq.Text.{Str}
use pdq.Text.Decimal.{word}
use pdq.Assoc.{Map, lookup, insert, str_key}

pub record MetadataCache (Metadata : Type 0) : Type 0 where
  pub entries : Map Str Metadata
  pub hits : ℕ
  pub misses : ℕ

-- `ParquetReaderWithCache`, with the footer size hint of its inner reader.
pub record Reader : Type 0 where
  pub key : Str
  pub file_size : ℕ
  pub footer_size_hint : Option ℕ

-- `metadata_size_hint.or(self.metadata_size_hint)`, handed on if there is one.
unfoldable pub create_reader : Option ℕ → Str → ℕ → Option ℕ → Reader
create_reader own location size (some hint) = record {
  key = location;
  file_size = size;
  footer_size_hint = some hint;
}
create_reader own location size none = record {
  key = location;
  file_size = size;
  footer_size_hint = own;
}

module _ {Metadata : Type 0} where
  -- `MetadataCache::default`
  abbrev pub empty_cache : MetadataCache Metadata
  empty_cache = record { entries = []; hits = 0; misses = 0 }

  abbrev pub count_hit :
      Option Metadata → MetadataCache Metadata → Option Metadata × MetadataCache Metadata
  count_hit none cache = (none, cache)
  count_hit (some md) cache = (some md, record cache { hits = (cache.hits + 1) % word })

  unfoldable pub get : Str → MetadataCache Metadata → Option Metadata × MetadataCache Metadata
  unfolding lookup
  get key cache = count_hit (lookup key cache.entries) cache

  unfoldable pub insert_metadata : Str → Metadata → MetadataCache Metadata → MetadataCache Metadata
  unfolding insert
  insert_metadata key md cache = record cache {
    entries = insert key md cache.entries;
    misses = (cache.misses + 1) % word;
  }

  unfoldable pub stats : MetadataCache Metadata → ℕ × ℕ
  stats cache = (cache.hits, cache.misses)

  -- What the inner reader makes of a footer depends on the files at the time, the options and the key.
  module _ {Files Options : Type 0} (read_footer : Files → Options → Str → Result Metadata) where
    abbrev pub store :
        Str → Result Metadata → MetadataCache Metadata → Result Metadata × MetadataCache Metadata
    store key (err e) cache = (err e, cache)
    store key (ok md) cache = (ok md, insert_metadata key md cache)

    abbrev pub serve :
        Files
        → Options
        → Str
        → Option Metadata × MetadataCache Metadata
        → Result Metadata × MetadataCache Metadata
    serve files options key (some md, cache) = (ok md, cache)
    serve files options key (none, cache) = store key (read_footer files options key) cache

    -- `get_metadata`, run without another reader in between. The look-up does not see the options.
    unfoldable pub get_metadata :
        Files → Options → Reader → MetadataCache Metadata → Result Metadata × MetadataCache Metadata
    unfolding get insert_metadata
    get_metadata files options reader cache = serve files options reader.key (get reader.key cache)
