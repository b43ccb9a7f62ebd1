-- ===== src/Tests/Tools.antt =====
-- The query tools on the lake in memory, which has one table, and an archive that nobody writes.
mod Rewrites
mod Backfills
mod Settings
use crypto_lakehouse.Prelude.{
  ==_self, ==_sym, All, All-map, Distinct, List, Option, Option-cases, String, [], ap, append-nil,
  arith, contains, false, if◌then◌else◌, inl, inr, int_eq, length, map, nat_eq, none, pos, refl,
  some, string_eq, subst, sym, true, u64_mod, ℕ, ℤ, ◌*◌, ◌++◌, ◌==◌, ◌∙◌, ◌∷◌, ◌≡◌,
}
use crypto_lakehouse.Result.{Result, ok, err, message, is_ok, ok-injective}
use crypto_lakehouse.Table.{Row}
use crypto_lakehouse.Config.{unsigned}
use crypto_lakehouse.Config.Text.{Float}
use crypto_lakehouse.Config.Settings.{PropNames}
use crypto_lakehouse.Query.{Column, dot, uint64}
use crypto_lakehouse.Query.Session.{Libraries}
use crypto_lakehouse.Query.Engine.{Batch, Engine, EngineLaws, Counts, Streams}
use crypto_lakehouse.Append.Chunks.{stream_rows}
use crypto_lakehouse.Sink.Open.{loaded}
use crypto_lakehouse.Sink.Connect.{Connector}
use crypto_lakehouse.Sink.Connect.Ready.{ConnectorLaws}
use crypto_lakehouse.Backfill.Rows.{All-and}
use crypto_lakehouse.Sink.Lake.{Laws, count}
use crypto_lakehouse.Sink.Open.{TableIdent}
use crypto_lakehouse.Append.Open.{Names, split_once}
use crypto_lakehouse.Tests.Lakes.{held, held_laws, rows_of, held_laws, memory, memory_laws, Storage}

abbrev pub names : PropNames
names = record {
  rest_catalog_uri = "uri";
  rest_catalog_warehouse = "warehouse";
  s3_endpoint = "s3.endpoint";
  s3_region = "s3.region";
  s3_access_key_id = "s3.access-key-id";
  s3_secret_access_key = "s3.secret-access-key";
  s3_path_style_access = "s3.path-style-access";
}

-- A row of the archive: an id, its event time and its trade time in seconds, and what may be NULL.
abbrev pub archived : ℕ → ℕ → ℕ → Option ℕ → Row
archived id event trade price = record {
  event_time = some (pos event);
  symbol = some "BTCUSDT";
  exchange = some "BINANCE";
  trade_id = some (pos id);
  price = price;
  quantity = some 1;
  trade_time = some (pos trade);
  is_buyer_maker = none;
  is_best_price_match = some true;
  trade_ts = some (pos (trade * 1000000));
  event_ts = some (pos (event * 1000000));
}

-- One trade twice, the later delivery first, one without a price, one out of the range of a day.
abbrev pub archive : List Row
archive =
    archived 1 30 10 (some 7)
    ∷ archived 1 20 10 (some 7)
    ∷ archived 2 40 35 none
    ∷ archived 3 50 45 (some 8)
    ∷ archived 4 100001 100000 (some 9)
    ∷ []

-- `trades.trades` grows, and under any other name is the archive.
abbrev pub frozen : TableIdent → Option (List Row)
frozen i =
    if i.namespace == "trades"
    then (if i.name == "trades" then none else some archive)
    else some archive

abbrev pub laws : (i : TableIdent) → Laws (held (frozen i))
laws i = held_laws (frozen i)

abbrev pub trades : TableIdent
trades = record { namespace = "trades"; name = "trades" }

abbrev pub connector : Connector Storage
connector = record {
  lake = λ i. held (frozen i);
  Schema = λ n. Unit {0};
  Provider = λ i. Unit {0};
  prop_names = names;
  load = λ n props w. (ok tt, w);
  load_table = λ i w. (loaded (length (rows_of (frozen i) w)), w);
  namespace_exists = λ n w. (ok true, w);
  create_namespace = λ n w. (ok tt, w);
  create_table = λ n c w. (ok 0, w);
  try_new = λ w. (ok tt, w);
  schema = λ n w. some tt;
  table = λ s n w. (ok (some tt), w);
  new = λ i. none;
  register_table = λ n p c. ok c;
}

pub connector_laws : ConnectorLaws connector laws
unfolding held_laws
connector_laws = record {
  committed-load = λ n props w j. refl;
  committed-load_table = λ i w j. refl;
  committed-namespace_exists = λ n w j. refl;
  committed-create_namespace = λ n w j. refl;
  committed-create_table = λ n c w j. refl;
  committed-try_new = λ w j. refl;
  committed-table = λ s m w j. refl;
  registered-new = λ i n. refl;
  register_table_ok = λ i n m p c c' h d. sym (ok-injective h);
}

abbrev libraries : Libraries
libraries = record {
  prop_names = names;
  Catalog = Unit {0};
  Provider = Unit {0};
  Context = Unit {0};
  load = λ n props. ok tt;
  try_new = λ c. ok tt;
  create_dir_all = λ d. ok tt;
  build = λ c r. ok tt;
  register_catalog = λ n p c. c;
}

abbrev value_of : List (String × ℕ) → Batch
value_of [] name = none
value_of (n ∷ ns) name = if name == n.0 then some (uint64 (n.1 ∷ [])) else value_of ns name

-- The rows of the table that a text names.
unfoldable pub scanned : String → Storage → List Row
unfolding split_once
scanned t w = elim (split_once dot t) [
  | none ↦ []
  | some parts ↦ rows_of (frozen (record { namespace = parts.0; name = parts.1 })) w
]

abbrev pub engine : Engine Storage
engine = record {
  libraries = libraries;
  scan = λ c t w. scanned t w;
  execute_stream = λ c rows w. ok (ok rows ∷ []);
  collect = λ c counts w. ok (value_of counts ∷ []);
  plan = λ c w. ok tt;
  show_plan = λ c w. ok tt;
}

scanned_same :
    (t : String) (w w' : Storage)
    → ((j : TableIdent) → rows_of (frozen j) w' ≡ rows_of (frozen j) w)
    → scanned t w' ≡ scanned t w
unfolding scanned
scanned_same t w w' h = elim (Option-cases (split_once dot t)) [
  | inl e ↦ rw (e, scanned) refl
  | inr (parts, e) ↦ rw (e, scanned) (h (record { namespace = parts.0; name = parts.1 }))
]

scanned_named :
    (t : String) (i : TableIdent) (w : Storage) → Names t i → scanned t w ≡ rows_of (frozen i) w
unfolding scanned
scanned_named t i w named = rw (named, scanned) refl

other_names :
    (a : String) (counts : List (String × ℕ))
    → contains (map (λ (n : String × ℕ). n.0) counts) a ≡ false
    → All (λ (n : String × ℕ). (n.0 == a) ≡ false) counts
other_names a [] h = tt
other_names a (n ∷ ns) h = (ground (arith, h, ==_sym n.0 a), other_names a ns (ground (arith, h)))

value_of-Counts :
    (counts : List (String × ℕ))
    → Distinct (map (λ (n : String × ℕ). n.0) counts)
    → All (λ (n : String × ℕ). Counts (value_of counts n.0) n.1) counts
value_of-Counts [] d = tt
value_of-Counts (n ∷ ns) d = (
  inl (rw (==_self n.0) refl),
  All-map ns (λ (m : String × ℕ) h. rw h.1 h.0)
      (All-and _ _ ns (value_of-Counts ns d.1) (other_names n.0 ns d.0)),
)

whole-Streams :
    (rows : List Row) (stream : List (Result (List Row)))
    → ok (ok rows ∷ []) ≡ ok stream
    → Streams rows stream
whole-Streams rows stream h =
    subst (Streams rows) (ok-injective h)
      ([], sym (append-nil (rows ++ []) ∙ append-nil rows), λ e. refl)

pub engine_laws : EngineLaws connector laws engine
unfolding held_laws
engine_laws = record {
  scan_unchanged = λ c t w w' h. scanned_same t w w' h;
  scan_named = λ c t i w names q. ap (count q) (scanned_named t i w names);
  execute_stream_ok = λ c rows w stream h. whole-Streams rows stream h;
  collect_ok =
      λ c counts w batches d h. (value_of counts, sym (ok-injective h), value_of-Counts counts d);
}

-- `f64`, as the natural numbers that the tests need of it.
unfoldable pub numbers : Float
unfolding unsigned
numbers = record {
  F64 = ℕ;
  from_str = unsigned u64_mod;
  of_ℕ = λ n. n;
  times = λ a b. a * b;
  to_usize = λ n. n;
  to_nanos = λ n. some (n * 1000000000);
}

-- An environment with what is required.
abbrev pub env : String → Option String
env key =
    if key == "GARAGE_ACCESS_KEY"
    then some "id"
    else if key == "GARAGE_SECRET_KEY"
    then some "secret"
    else if key == "NATS_URL"
    then some "nats://localhost:4222"
    else if key == "LAKEKEEPER_URI"
    then some "http://catalog"
    else none

abbrev pub empty : Storage
empty = record { rows = []; broken = false }

abbrev pub a_day : ℤ
a_day = pos 86400000000
