-- ===== src/Models/RoundTrip.antt =====
-- What is printed of a model is read back.
use mathlib.Core.Path.{fun_ext}
use relentless_bookworm.Base.{pos, ◌≡◌, ap, ◌∙◌, Option, some, List, Bytes}
use relentless_bookworm.Json.{IsInt, ◌>>=◌, Json, Slots, present, values}
use relentless_bookworm.Json.Valid.{Codec, IsValid}
use relentless_bookworm.Json.Members.{wanted, values-present}
use relentless_bookworm.Models.{CrawlJob, CrawlStatus, Edge}
use relentless_bookworm.Models.Encode.{
  job_slots, edge_slots, encode_job, encode_edge, encode_status, status_slots,
}
use relentless_bookworm.Models.Decode.{
  unmarshal, job_from, decode_job, edge_from, decode_edge, status_from, decode_status,
}

-- A reader of values finds those of the slots.
pub from_slots {ℓ} :
    {A : Type ℓ} (from_ : (Bytes → List Json) → A) (slots : Slots)
    → from_ (values (present slots)) ≡ from_ (wanted slots)
from_slots from_ slots = ap from_ (fun_ext (values-present slots))

pub decode-encode_edge : (e : Edge) → decode_edge (encode_edge e) ≡ some e
unfolding decode_edge encode_edge edge_from wanted
decode-encode_edge e = from_slots edge_from (edge_slots e)

module _ (c : Codec) where
  decode-encode_job : (j : CrawlJob) → IsInt (pos j.depth) → decode_job c (encode_job c j) ≡ some j
  unfolding decode_job encode_job job_from wanted
  decode-encode_job j d = from_slots (job_from c) (job_slots c j) ∙ rw (d, c.time_back j.created_at)

  decode-encode_status : (s : CrawlStatus) → decode_status c (encode_status c s) ≡ some s
  unfolding decode_status encode_status status_from wanted
  decode-encode_status s =
      from_slots (status_from c) (status_slots c s) ∙ rw (c.time_back s.created_at)

module _ (c : Codec) where
  pub job_back :
      (j : CrawlJob)
      → IsValid (encode_job c j)
      → IsInt (pos j.depth)
      → unmarshal c (decode_job c) (c.print (encode_job c j)) ≡ some j
  job_back j h d =
      ap (λ (o : Option Json). o >>= decode_job c) (c.parse_back (encode_job c j) h)
      ∙ decode-encode_job c j d

  -- Whatever job, status or edge one service marshals, in texts that are UTF-8 and with a depth that
  -- fits an int, another service
  -- unmarshals to just the same value: the fields have the same names on both sides, none is
  -- dropped, and none is taken for another.
  pub unmarshal_back :
      (j : CrawlJob) (s : CrawlStatus) (e : Edge)
      → IsValid (encode_job c j)
      → IsInt (pos j.depth)
      → IsValid (encode_status c s)
      → IsValid (encode_edge e)
      → (unmarshal c (decode_job c) (c.print (encode_job c j)) ≡ some j)
        × (unmarshal c (decode_status c) (c.print (encode_status c s)) ≡ some s)
        × (unmarshal c decode_edge (c.print (encode_edge e)) ≡ some e)
  unmarshal_back j s e hj d hs he = (
    job_back j hj d,
    ap (λ (o : Option Json). o >>= decode_status c) (c.parse_back (encode_status c s) hs)
        ∙ decode-encode_status c s,
    ap (λ (o : Option Json). o >>= decode_edge) (c.parse_back (encode_edge e) he)
        ∙ decode-encode_edge e,
  )
