-- ===== src/Logs.antt =====
-- backend/internal/logs/store.go: the ring of the last log entries, bounded in entries and in bytes.
-- A method runs under the mutex of the store, so it is one step of the state.
pub mod Arrays
pub mod Queue
pub mod Ring
pub mod Writer
mod Tests
use caddy_reverse_proxy.Common.{
  ℕ, zero, suc, ◌+◌, ◌-◌, ◌*◌, ◌%◌, Bool, true, false, not, ◌&&◌, ◌||◌, Option, none, some, List,
  [], ◌∷◌, eqb, ltb, if◌then◌else◌,
}
use caddy_reverse_proxy.Common.Int.{ℤ, pos, negsuc}
use caddy_reverse_proxy.Text.{Text, codes, ◌==◌, to_lower, trim_space}
use caddy_reverse_proxy.Logs.Arrays.{get_or, set, replicate}

-- A zero time is 0. `F` stands for the map of fields, which is kept as it comes.
pub record Entry (F : Type 0) : Type 0 where
  pub time : ℕ
  pub source : Text
  pub level : Text
  pub message : Text
  pub fields : F

pub record Store (F : Type 0) : Type 0 where
  pub entries : List (Entry F)
  pub sizes : List ℕ
  pub start : ℕ
  pub count : ℕ
  pub stored_bytes : ℕ
  pub limit : ℕ
  pub byte_limit : ℕ

abbrev pub max_store_bytes : ℕ
max_store_bytes = 8 * 1024 * 1024

-- `nil` is a map without fields.
module _ {F : Type 0} (nil : F) where
  -- Entry{}
  abbrev pub no_entry : Entry F
  no_entry = record { time = 0; source = []; level = []; message = []; fields = nil }

  -- newStore
  unfoldable pub new_sized : ℕ → ℕ → Store F
  new_sized limit byte_limit = record {
    entries = replicate limit no_entry;
    sizes = replicate limit 0;
    start = 0;
    count = 0;
    stored_bytes = 0;
    limit = limit;
    byte_limit = byte_limit;
  }

  unfoldable pub new_store : ℤ → Store F
  unfolding new_sized
  new_store (pos zero) = new_sized 1000 max_store_bytes
  new_store (pos (suc n)) = new_sized (suc n) max_store_bytes
  new_store (negsuc n) = new_sized 1000 max_store_bytes

  -- The condition of the loop of Add.
  unfoldable pub must_evict : ℕ → Store F → Bool
  must_evict size s =
      not (eqb s.count 0) && (eqb s.count s.limit || ltb s.byte_limit (s.stored_bytes + size))

  -- Its body.
  unfoldable pub drop_oldest : Store F → Store F
  drop_oldest s = record s {
    stored_bytes = s.stored_bytes - get_or s.sizes s.start 0;
    entries = set s.entries s.start no_entry;
    sizes = set s.sizes s.start 0;
    start = (s.start + 1) % s.limit;
    count = s.count - 1;
  }

  -- Each turn takes one entry away, so as many turns as there are entries are enough.
  unfoldable pub evict : ℕ → ℕ → Store F → Store F
  evict zero size s = s
  evict (suc fuel) size s =
      let rest = evict fuel size (drop_oldest s) in if must_evict size s then rest else s

  -- The lines of Add behind the loop.
  unfoldable pub append : Entry F → ℕ → Store F → Store F
  append entry size s =
      let index = (s.start + s.count) % s.limit in
      record s {
        entries = set s.entries index entry;
        sizes = set s.sizes index size;
        stored_bytes = s.stored_bytes + size;
        count = s.count + 1;
      }

  -- The lines of Add in front of the encoding; `now` is its reading of the clock.
  unfoldable pub clean : ℕ → Entry F → Entry F
  clean now e =
      let level = to_lower (trim_space e.level) in
      record {
        time = (if eqb e.time 0 then now else e.time);
        source = trim_space e.source;
        level = (if level == [] then codes "info" else level);
        message = trim_space e.message;
        fields = e.fields;
      }

  -- `encoded` is the length of the JSON of the entry, if it has one.
  unfoldable pub add_encoded : Option ℕ → Entry F → Store F → Store F
  add_encoded none e s = s
  add_encoded (some size) e s =
      if ltb s.byte_limit size then s else append e size (evict s.count size s)

  unfoldable pub add : (Entry F → Option ℕ) → ℕ → Entry F → Store F → Store F
  add encoded now raw s = let e = clean now raw in add_encoded (encoded e) e s

  abbrev at_most_200 : ℕ → ℕ
  at_most_200 limit = if ltb 200 limit then 200 else limit

  -- The first lines of ReadLast.
  unfoldable pub read_limit : ℤ → ℕ → ℕ
  read_limit (pos n) limit = if eqb n 0 || ltb limit n then at_most_200 limit else n
  read_limit (negsuc n) limit = at_most_200 limit

  -- The loop of ReadLast, `n` turns from `offset` on.
  unfoldable pub read_from : ℕ → ℕ → Store F → List (Entry F)
  read_from zero offset s = []
  read_from (suc n) offset s =
      let index = (s.start + s.count - 1 - offset + s.limit) % s.limit in
      get_or s.entries index no_entry ∷ read_from n (offset + 1) s

  unfoldable pub read_last : ℤ → Store F → List (Entry F)
  read_last limit s =
      let n = read_limit limit s.limit in read_from (if ltb s.count n then s.count else n) 0 s
