-- ===== src/Onboarding/Create.antt =====
-- internal/domain/onboarding/session_service.go, CreateSession. `Services` is what it asks of the other
-- services: the check of the T&C version, the card catalogue, and the deposit that the product
-- catalogue shows.
use bca_mobile_api.Common.{
  ℕ, ◌+◌, ◌-◌, String, Bool, true, false, not, ◌||◌, ◌&&◌, Option, none, some, is_some, List, [],
  ◌∷◌, leb, ltb, str_eq, if◌then◌else◌, Cause, Result, ok, err, ◌>>=◌, ◌>>◌, refuse, wrapped,
  validation_error, onboarding_product_unavailable, onboarding_session_limit,
}
use bca_mobile_api.Onboarding.Steps.{Step, ocr, card_selection, valid_product}
use bca_mobile_api.Onboarding.Session.{
  Session, Env, World, count_sessions, insert_session, call, cache_store,
}
use Prim.Native.String.{◌++◌ as append}

pub record CreateRequest : Type 0 where
  pub product_type : String
  pub device_id : String
  pub accepted_tnc_version : String
  pub card_type : String
  pub card_catalog_version : String
  pub app_version : String
  pub region_code : String

-- `find_card` gives the type of the card that it found.
pub record Services : Type 0 where
  pub validate_version : String → Result (Unit {0})
  pub cards_enabled : Bool
  pub default_card : String → String → Result String
  pub find_card : String → String → String → Result String
  pub current_version : Result String
  pub has_selectable_catalog : String → String → Bool
  pub deposit_shown : String → Option (ℕ × String)
  pub legacy_app_version : String
  pub text_before : String → String → Bool

abbrev pub session_ttl : ℕ
session_ttl = 86400

abbrev pub max_sessions_per_device : ℕ
max_sessions_per_device = 3

abbrev pub session_rate_window : ℕ
session_rate_window = 3600

-- The rows that `CountActiveByDevice` counts.
abbrev pub counts : String → ℕ → Session → Bool
counts device now s =
    str_eq s.device_id device
    && not (is_some s.deleted_at)
    && ltb now s.expires_at
    && leb (now - session_rate_window) s.created_at

unfoldable pub count_active : String → ℕ → List Session → ℕ
count_active device now [] = 0
count_active device now (s ∷ ss) =
    let rest = count_active device now ss in if counts device now s then rest + 1 else rest

unfoldable pub is_legacy_app : Services → String → Bool
is_legacy_app v app =
    not (str_eq v.legacy_app_version "")
    && not (str_eq app "")
    && v.text_before app v.legacy_app_version

unfoldable pub catalog_outdated : Services → String → Bool
catalog_outdated v client =
    if str_eq client ""
    then false
    else elim v.current_version [ err e ↦ false | ok current ↦ not (str_eq current client) ]

-- The card that the request is about: its own, or for an old app the default of the catalogue, with an
-- unreadable catalogue read as no card.
unfoldable pub wanted_card : Services → CreateRequest → String
unfolding is_legacy_app
wanted_card v req =
    if str_eq req.card_type "" && is_legacy_app v req.app_version
    then elim (v.default_card req.product_type req.region_code) [ err e ↦ "" | ok card ↦ card ]
    else req.card_type

unfoldable pub resolve_session_card : Services → CreateRequest → Result (Option String × Bool)
unfolding wanted_card catalog_outdated
resolve_session_card v req =
    if not v.cards_enabled || str_eq (wanted_card v req) "" then ok (none, false) else (do
      card ← v.find_card req.product_type (wanted_card v req) req.region_code
      ok (some card, catalog_outdated v req.card_catalog_version))

-- A session stops at the card selection only if there is a catalogue to select from.
unfoldable pub first_step : Services → CreateRequest → Option String → Step
first_step v req (some card) = ocr
first_step v req none =
    if v.has_selectable_catalog req.product_type req.region_code then card_selection else ocr

abbrev pub card_text : Option String → String
card_text none = ""
card_text (some card) = card

unfoldable pub new_session : Env → Services → CreateRequest → String → Option String → Session
unfolding first_step
new_session env v req key card = record {
  id = env.new_id;
  session_id = key;
  device_id = req.device_id;
  product_type = req.product_type;
  current_step = first_step v req card;
  tnc_version = req.accepted_tnc_version;
  steps_completed = record {
    tnc_accepted = true;
    ocr_verified = false;
    personal_data_saved = false;
    otp_verified = false;
    biometric_verified = false;
    video_call_verified = false;
    credentials_set = false;
    submitted = false;
    card_selected = is_some card;
  };
  created_at = env.now;
  updated_at = env.now;
  expires_at = env.now + session_ttl;
  deleted_at = none;
  card_type = card_text card;
  card_selected_at = if is_some card then some env.now else none;
  card_catalog_version = if is_some card then req.card_catalog_version else "";
  product_catalog_version = elim (v.deposit_shown req.product_type) [
    | none ↦ ""
    | some (d, version) ↦ version
  ];
  min_initial_deposit_shown = elim (v.deposit_shown req.product_type) [
    | none ↦ 0
    | some (d, version) ↦ d
  ];
}

abbrev pub session_key : Env → Result String
session_key env = elim env.short_id [
  | none ↦ err (wrapped "generate session id" Cause.failed)
  | some s ↦ ok (append "onb_" s)
]

unfoldable pub create_session : Env → Services → CreateRequest → World → Result (Session × World)
unfolding valid_product call count_active resolve_session_card new_session cache_store
create_session env v req w = do
  refuse (not (valid_product req.product_type)) onboarding_product_unavailable
  refuse (str_eq req.device_id "") validation_error
  refuse (str_eq req.accepted_tnc_version "") validation_error
  v.validate_version req.accepted_tnc_version
  call env count_sessions "count active sessions"
  refuse (leb max_sessions_per_device (count_active req.device_id env.now w.rows))
      onboarding_session_limit
  key ← session_key env
  card ← resolve_session_card v req
  let s = new_session env v req key card.0
  call env insert_session "create session"
  ok (s, cache_store env s (record w { rows = s ∷ w.rows }))
