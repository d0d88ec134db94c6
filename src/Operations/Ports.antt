-- ===== src/Operations/Ports.antt =====
-- What the operations call outside their own code: hashing, base64, JSON text, the text of a
-- value, and derived identifiers (Python's hashlib, hmac, base64, json, datetime and uuid).
use commerce_analyst_agent.Prelude.{ℕ, String, Bool, Option, List}
use commerce_analyst_agent.Operations.Contracts.{Uuid, Instant}

-- The JSON values that `json.dumps` prints.
mutual
  pub data Json : Type 0 where
    null : Json
    text : String → Json
    number : ℕ → Json
    boolean : Bool → Json
    array : JsonItems → Json
    object : JsonFields → Json

  pub data JsonItems : Type 0 where
    nil : JsonItems
    cons : Json → JsonItems → JsonItems

  pub data JsonFields : Type 0 where
    end : JsonFields
    field : String → Json → JsonFields → JsonFields

abbrev pub Bytes : Type 0
Bytes = List ℕ

pub record Ports : Type 0 where
  -- `hashlib.sha256(b).hexdigest()`
  pub sha256_hex : Bytes → String
  -- `hmac.new(key, message, hashlib.sha256).hexdigest()`
  pub hmac_hex : Bytes → Bytes → String
  -- `json.dumps(v, ensure_ascii=False, sort_keys=True, ...).encode("utf-8")`
  pub json_bytes : Json → Bytes
  -- `base64.urlsafe_b64encode(b).decode("ascii")`, and the decoder, `none` for its `ValueError`
  pub b64_encode : Bytes → String
  pub b64_decode : String → Option Bytes
  -- `value.astimezone(UTC).isoformat(timespec="seconds").replace("+00:00", "Z")`, `none` for the
  -- `OverflowError` of an instant whose year in UTC is not one from 1 to 9999
  pub isoformat : Instant → Option String
  -- the text of a datetime in `model_dump(mode="json")`
  pub json_datetime : Instant → String
  -- `str(uuid).lower()` and `str(int)`
  pub uuid_str : Uuid → String
  pub int_str : ℕ → String
  -- `format(value, ".4f")` of a number of ten-thousandths with a minus sign or without one
  pub format_4f : Bool → ℕ → String
  -- `uuid5(NAMESPACE_URL, name)`
  pub uuid5 : String → Uuid
