-- ===== src/Onboarding/Examples.antt =====
-- An account opening that starts and makes a step, and the theorems applied to it.
use bca_mobile_api.Common.{
  List, ◌<◌, true, false, ◌≡◌, refl, none, some, [], ◌∷◌, ok, err, Error, arith,
}
use bca_mobile_api.Onboarding.Steps.{ocr, personal_data, can_transition, valid_product}
use bca_mobile_api.Onboarding.Session.{
  Session, Env, World, call, find_key, cache_get, cache_store, resolve_session, has_live, advance,
  transition_step, cancel_session,
}
use bca_mobile_api.Onboarding.Create.{
  Services, CreateRequest, first_step, new_session, create_session, resolve_session_card,
  wanted_card, count_active, max_sessions_per_device,
}
use bca_mobile_api.Onboarding.Liveness.{
  LivenessAction, turn_right, look_up, blink, Rand, secure_intn, swap, slice_to, secure_shuffle,
  pick_actions,
}
use bca_mobile_api.Onboarding.Shuffle.{IsUniform}
use bca_mobile_api.Onboarding.Challenge.{IsChallenge, pick_actions-IsChallenge}
use bca_mobile_api.Onboarding.Progress.{
  WorldProgress, SessionProgress, transition_step-WorldProgress, create_session-WorldProgress,
}
use bca_mobile_api.Onboarding.Cancel.{transition_step-cancel_session}

abbrev plain_env : Env
plain_env = record {
  fault = λ c. none;
  now = 5000;
  cache_reads = true;
  cache_writes = true;
  new_id = 1;
  short_id = some "a1";
}

abbrev no_cards : Services
no_cards = record {
  validate_version = λ s. ok tt;
  cards_enabled = false;
  default_card = λ p r. ok "";
  find_card = λ p c r. ok c;
  current_version = ok "v1";
  has_selectable_catalog = λ p r. false;
  deposit_shown = λ p. none;
  legacy_app_version = "";
  text_before = λ a b. false;
}

abbrev request : CreateRequest
request = record {
  product_type = "TAHAPAN_BCA";
  device_id = "dev-1";
  accepted_tnc_version = "2026";
  card_type = "";
  card_catalog_version = "";
  app_version = "";
  region_code = "";
}

abbrev empty_world : World
empty_world = record { rows = []; cache = [] }

abbrev started : Session
started = record {
  id = 1;
  session_id = "onb_a1";
  device_id = "dev-1";
  product_type = "TAHAPAN_BCA";
  current_step = ocr;
  tnc_version = "2026";
  steps_completed = record {
    tnc_accepted = true;
    ocr_verified = false;
    personal_data_saved = false;
    otp_verified = false;
    biometric_verified = false;
    video_call_verified = false;
    credentials_set = false;
    submitted = false;
    card_selected = false;
  };
  created_at = 5000;
  updated_at = 5000;
  expires_at = 91400;
  deleted_at = none;
  card_type = "";
  card_selected_at = none;
  card_catalog_version = "";
  product_catalog_version = "";
  min_initial_deposit_shown = 0;
}

abbrev one_session : World
one_session = record { rows = started ∷ []; cache = started ∷ [] }

created : create_session plain_env no_cards request empty_world ≡ ok (started, one_session)
unfolding create_session valid_product call count_active resolve_session_card wanted_card
    new_session first_step cache_store
created = refl

create_session-WorldProgress_example :
    WorldProgress one_session
    × SessionProgress started
    × (count_active request.device_id plain_env.now empty_world.rows < max_sessions_per_device)
create_session-WorldProgress_example =
    create_session-WorldProgress plain_env no_cards request empty_world (tt, tt) created

started-Progress : SessionProgress started
started-Progress = record {
  past_tnc = λ l. refl;
  past_ocr = λ l. let bad : ⊥ = omega arith in absurd bad;
  past_personal = λ l. let bad : ⊥ = omega arith in absurd bad;
  past_otp = λ l. let bad : ⊥ = omega arith in absurd bad;
  past_biometric = λ l. let bad : ⊥ = omega arith in absurd bad;
  past_video = λ l. let bad : ⊥ = omega arith in absurd bad;
  past_credentials = λ l. let bad : ⊥ = omega arith in absurd bad;
  past_review = λ l. let bad : ⊥ = omega arith in absurd bad;
}

one_session-Progress : WorldProgress one_session
one_session-Progress = ((started-Progress, tt), (started-Progress, tt))

abbrev stepped : World
stepped = elim (transition_step plain_env "onb_a1" personal_data one_session) [
  | ok w ↦ w
  | err e ↦ one_session
]

moved : transition_step plain_env "onb_a1" personal_data one_session ≡ ok stepped
unfolding transition_step resolve_session cache_get find_key advance call can_transition has_live
moved = refl

transition_step-WorldProgress_example : WorldProgress stepped
transition_step-WorldProgress_example =
    transition_step-WorldProgress plain_env "onb_a1" personal_data one_session one_session-Progress
      moved

abbrev cancelled : World
cancelled = elim (cancel_session plain_env "onb_a1" one_session) [ ok w ↦ w | err e ↦ one_session ]

cancels : cancel_session plain_env "onb_a1" one_session ≡ ok cancelled
unfolding cancel_session resolve_session cache_get find_key call has_live
cancels = refl

transition_step-cancel_session_example :
    (e : Error) × (transition_step plain_env "onb_a1" personal_data cancelled ≡ err e)
transition_step-cancel_session_example =
    transition_step-cancel_session plain_env plain_env "onb_a1" personal_data one_session cancels

-- A source of random numbers that always gives the smallest.
abbrev smallest : Rand
smallest n max = some 0

smallest-IsUniform : IsUniform smallest
smallest-IsUniform n max l = (0, refl, l)

asked : pick_actions smallest 3 ≡ some (turn_right ∷ look_up ∷ blink ∷ [])
unfolding pick_actions secure_shuffle secure_intn swap slice_to
asked = refl

pick_actions-IsChallenge_example :
    (actions : List LivenessAction) × (pick_actions smallest 3 ≡ some actions)
    × IsChallenge 3 actions
pick_actions-IsChallenge_example = pick_actions-IsChallenge smallest 3 smallest-IsUniform
