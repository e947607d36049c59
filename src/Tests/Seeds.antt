-- ===== src/Tests/Seeds.antt =====
-- A seed from the API to a worker.
use relentless_bookworm.Base.{◌≡◌, refl, true, false, none, [], ◌∷◌, ◌++◌, codes}
use relentless_bookworm.Text.{bytes_eq, trim_space, has_prefix, has_suffix, trim_right}
use relentless_bookworm.Json.Valid.{IsValid, is_utf8}
use relentless_bookworm.Commit.{Message}
use relentless_bookworm.Models.{CrawlJob}
use relentless_bookworm.Models.Encode.{encode_job}
use relentless_bookworm.Models.Decode.{unmarshal, decode_job}
use relentless_bookworm.Ol.Client.{ensure_json_url}
use relentless_bookworm.Api
use relentless_bookworm.Api.{Server, normalize_seed_url, seed_job, handle_crawl}
use relentless_bookworm.Worker.State.{Env}
use relentless_bookworm.Worker.Dispatch.{started, dispatch_message, dedupe_key_for_job, holds}
use relentless_bookworm.Wiring.Seeds.{begun, seed_started}
use relentless_bookworm.Tests.Fixtures.{an_env, a_config, a_world}
use relentless_bookworm.Tests.Codec.{a_codec}

abbrev api_server : Server
api_server = record { frontier = []; keys = []; tick = 0 }

abbrev api_outside : Api.Outside
api_outside = record {
  writes = λ n. true;
  answers = λ n. true;
  now = λ n. 5;
  session_id = λ n. codes "7";
  marshal = λ st. [];
  unmarshal = λ v. none;
}

abbrev first_job : CrawlJob
first_job = seed_job api_outside [] (normalize_seed_url (trim_space (codes "http://a"))) 5

abbrev first_message : Message
first_message = record {
  partition = 0;
  offset = 0;
  value = a_codec.print (encode_job a_codec first_job);
}

abbrev reading_env : Env
reading_env = record an_env { unmarshal_job = unmarshal a_codec (decode_job a_codec) }

first_given : bytes_eq (trim_space (codes "http://a")) [] ≡ false
unfolding bytes_eq trim_space
first_given = refl

first_job-IsValid : IsValid (encode_job a_codec first_job)
unfolding encode_job is_utf8 normalize_seed_url trim_space ensure_json_url has_prefix has_suffix
    trim_right
first_job-IsValid = (refl, refl, (refl, refl, (refl, refl, (refl, tt, (refl, refl, tt)))))

not_seen : holds a_world.visited (dedupe_key_for_job first_job) ≡ false
unfolding holds
not_seen = refl

seed_started_example :
    ((handle_crawl api_outside [] (codes "POST") (codes "http://a") api_server).1.frontier
      ≡ [] ++ first_job ∷ [])
    × (dispatch_message reading_env a_config first_message a_world
        ≡ (started first_job, begun reading_env a_config first_message first_job a_world))
seed_started_example =
    seed_started a_codec api_outside [] (codes "http://a") api_server reading_env a_config
      first_message a_world first_job refl first_given refl refl (λ b. refl) refl first_job-IsValid
      refl not_seen refl
