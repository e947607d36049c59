-- ===== src/Loadgen.antt =====
-- cmd/loadgen/main.go: the load generator, which posts the seeds of a file to the API.
pub mod Laws
use relentless_bookworm.Base.{
  ℕ, Bool, Option, none, some, List, [], ◌∷◌, ◌++◌, map, if◌then◌else◌, Bytes, codes,
}
use relentless_bookworm.Text.{query_escape}

-- A POST without a body.
pub record Request : Type 0 where
  pub base : Bytes
  pub path : Bytes
  pub raw_query : Bytes

-- Why nothing was submitted: os.ReadFile, json.Unmarshal, errNoSeeds, and url.Parse.
pub data Failure : Type 0 where
  unreadable : Failure
  not_json : Failure
  no_seeds : Failure
  bad_base : Failure

pub data Loaded : Type 0 where
  load_failed : Failure → Loaded
  seeds : List Bytes → Loaded

pub data Submitted : Type 0 where
  nothing_sent : Failure → Submitted
  sent : List Request → Submitted

abbrev with_seeds : Option (List Bytes) → Loaded
with_seeds none = load_failed not_json
with_seeds (some []) = load_failed no_seeds
with_seeds (some (x ∷ xs)) = seeds (x ∷ xs)

abbrev with_data : (Bytes → Option (List Bytes)) → Option Bytes → Loaded
with_data unmarshal none = load_failed unreadable
with_data unmarshal (some text) = with_seeds (unmarshal text)

unfoldable pub load_config : (Bytes → Option Bytes) → (Bytes → Option (List Bytes)) → Bytes → Loaded
load_config read_file unmarshal path = with_data unmarshal (read_file path)

-- The request of a seed; what the API answers is only logged.
unfoldable pub submit_seed : Bytes → Bytes → Request
submit_seed base seed = record {
  base = base;
  path = codes "/crawl";
  raw_query = codes "url=" ++ query_escape seed;
}

abbrev submit_all : (Bytes → Bool) → Bytes → Loaded → Submitted
submit_all url_parses base (load_failed e) = nothing_sent e
submit_all url_parses base (seeds xs) =
    if url_parses base then sent (map (submit_seed base) xs) else nothing_sent bad_base

-- `run`: each seed has a goroutine of its own, and the list has them in the order of their start.
unfoldable pub run_loadgen :
    (Bytes → Option Bytes)
    → (Bytes → Option (List Bytes))
    → (Bytes → Bool)
    → Bytes
    → Bytes
    → Submitted
unfolding load_config submit_seed
run_loadgen read_file unmarshal url_parses path base =
    submit_all url_parses base (load_config read_file unmarshal path)
