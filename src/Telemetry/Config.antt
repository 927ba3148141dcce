-- ===== src/Telemetry/Config.antt =====
-- The configuration of a subscribe request: `__init__`, `_parse_config` and `_validate_config` of the
-- subscription classes in src/system/telemetry/goldstone/system/telemetry/telemetry.py. Intervals are
-- in nanoseconds.
pub mod Valid
pub mod Tests
use goldstone_mgmt.Base.{
  ℕ, ◌*◌, String, Bool, true, false, not, ◌&&◌, Option, none, some, List, [], ◌∷◌, Result, ok, err,
  Exn, key_error, attribute_error, type_error, validation_failed, if◌then◌else◌, ◌==◌, nat_eq,
  string_eq, ltb,
}
use goldstone_mgmt.Base.Dict
use goldstone_mgmt.Base.Dict.{Dict}
use goldstone_mgmt.Base.Text.{Text}
use goldstone_mgmt.Telemetry.Path.{Schema, is_valid_path, ◌>>=ᵣ◌}

-- "config" of a subscription, and an entry of `_subscriptions`. Its "id" is always there: the data
-- model makes the list key a reference to it.
pub record SubscriptionConfig : Type 0 where
  pub id : ℕ
  pub path : Option Text
  pub mode : Option String
  pub sample_interval : Option ℕ
  pub suppress_redundant : Option Bool
  pub heartbeat_interval : Option ℕ

pub record SubscriptionItem : Type 0 where
  pub id : Option ℕ
  pub config : Option SubscriptionConfig

-- `mode` is None where the key is missing.
pub record RequestConfig : Type 0 where
  pub mode : Option String
  pub updates_only : Option Bool

-- A value of the list "subscribe-request".
pub record Request : Type 0 where
  pub id : Option ℕ
  pub config : Option RequestConfig
  pub subscriptions : Option (Option (List SubscriptionItem))

-- StreamSubscription, OnceSubscription, PollSubscription
pub data Kind : Type 0 where
  stream once poll : Kind

pub record Subscription : Type 0 where
  pub kind : Kind
  pub id : ℕ
  pub request : Request
  pub update_interval : ℕ
  pub updates_only : Bool
  pub subscriptions : Dict ℕ SubscriptionConfig

abbrev pub default {ℓ} : {A : Type ℓ} → A → Option A → A
default d none = d
default d (some a) = a

-- HEARTBEAT_DISABLED
abbrev pub heartbeat_disabled : ℕ
heartbeat_disabled = 0

pub items_of : Option (Option (List SubscriptionItem)) → List SubscriptionItem
items_of none = []
items_of (some none) = []
items_of (some (some l)) = l

pub config_updates_only : Option RequestConfig → Bool
config_updates_only none = false
config_updates_only (some c) = default false c.updates_only

pub parse_items :
    List SubscriptionItem → Dict ℕ SubscriptionConfig → Result (Dict ℕ SubscriptionConfig)
parse_items [] d = ok d
parse_items (x ∷ xs) d = elim x.id [
  | none ↦ parse_items xs d
  | some sid ↦ elim x.config [
    | none ↦ err attribute_error
    | some c ↦ parse_items xs (Dict.put d sid c)
  ]
]

-- `_target_defined_mode` selects SAMPLE for every path.
pub target_defined_mode : Option Text → String
target_defined_mode path = "SAMPLE"

pub stream_mode : Option Text → Option String → Option String
unfolding target_defined_mode
stream_mode path none = none
stream_mode path (some m) =
    if m == "TARGET_DEFINED" then some (target_defined_mode path) else some m

-- the loop of `StreamSubscription._parse_config` for one subscription
pub stream_defaults : ℕ → SubscriptionConfig → SubscriptionConfig
stream_defaults sampling c = record c {
  sample_interval = some (default sampling c.sample_interval);
  suppress_redundant = some (default false c.suppress_redundant);
  heartbeat_interval = some (default heartbeat_disabled c.heartbeat_interval);
  mode = stream_mode c.path c.mode;
}

pub map_values : {A : Type 0} → (A → A) → Dict ℕ A → Dict ℕ A
map_values f [] = []
map_values f ((k, v) ∷ d) = (k, f v) ∷ map_values f d

-- `_parse_config`; `_default_sampling_interval` is twice the update interval
pub parse_config : Kind → ℕ → Request → Result (Dict ℕ SubscriptionConfig)
unfolding items_of
parse_config stream interval r = parse_items (items_of r.subscriptions) [] >>=ᵣ λ d.
    ok (map_values (stream_defaults (interval * 2)) d)
parse_config _ interval r = parse_items (items_of r.subscriptions) []

-- a number that the code compares; None raises TypeError
unfoldable pub number : {A : Type 0} → Option A → Result A
number none = err type_error
number (some n) = ok n

pub fail_if : Bool → String → Result (Unit {0}) → Result (Unit {0})
fail_if b msg rest = if b then err (validation_failed msg) else rest

module _ {S : Type 0} (P : Schema S) where
  -- the loop of `Subscription._validate_config` for one subscription
  pub validate_path : SubscriptionConfig → Result (Unit {0})
  unfolding fail_if
  validate_path c = elim c.path [
    | none ↦ err (validation_failed "path is mandatory")
    | some path ↦ is_valid_path P path >>=ᵣ λ known. fail_if (not known) "invalid path" (ok tt)
  ]

  pub validate_paths : Dict ℕ SubscriptionConfig → Result (Unit {0})
  validate_paths [] = ok tt
  validate_paths ((k, c) ∷ d) = validate_path c >>=ᵣ λ _. validate_paths d

-- the loop of `StreamSubscription._validate_config` for one subscription
pub validate_stream : ℕ → SubscriptionConfig → Result (Unit {0})
unfolding fail_if number
validate_stream interval c = elim c.mode [
  | none ↦ err (validation_failed "mode is mandatory")
  | some mode ↦ number c.heartbeat_interval >>=ᵣ λ heartbeat.
      fail_if (ltb heartbeat interval && not (heartbeat == heartbeat_disabled))
        "heartbeat-interval is shorter than minimum interval"
        (if mode == "SAMPLE"
          then (number c.sample_interval >>=ᵣ λ sample.
              fail_if (ltb sample interval) "sample-interval is shorter than minimum interval"
                (ok tt))
          else ok tt)
]

pub validate_streams : ℕ → Dict ℕ SubscriptionConfig → Result (Unit {0})
validate_streams interval [] = ok tt
validate_streams interval ((k, c) ∷ d) =
    validate_stream interval c >>=ᵣ λ _. validate_streams interval d

module _ {S : Type 0} (P : Schema S) where
  -- `_validate_config`
  pub validate_config : Kind → ℕ → Dict ℕ SubscriptionConfig → Result (Unit {0})
  validate_config stream interval d = validate_paths P d >>=ᵣ λ _. validate_streams interval d
  validate_config _ interval d = validate_paths P d

  -- `__init__`; config["id"] raises KeyError where it is missing
  pub create : Kind → Request → ℕ → Result Subscription
  unfolding config_updates_only
  create kind r interval = elim r.id [
    | none ↦ err key_error
    | some id ↦ parse_config kind interval r >>=ᵣ λ d. validate_config kind interval d >>=ᵣ λ _.
        ok (record {
          kind = kind;
          id = id;
          request = r;
          update_interval = interval;
          updates_only = config_updates_only r.config;
          subscriptions = d;
        })
  ]
