-- ===== src/VideoCall/Examples.antt =====
-- A video call from the queue to its result, and the theorems applied to it.
use bca_mobile_api.Common.{◌≡◌, ◌≢◌, refl, true, false, some, none, [], ◌∷◌, ok, arith}
use bca_mobile_api.Onboarding.Steps.{video_call}
use bca_mobile_api.Onboarding.Session.{Session, Env as SessionEnv}
use bca_mobile_api.Onboarding.Progress.{WorldProgress, SessionProgress}
use bca_mobile_api.VideoCall.Calls.{
  VideoCall, CallWorld, queued, approved, find_by_queue_id, change_call, remove_member,
}
use bca_mobile_api.VideoCall.Service.{
  Env, SubmitRequest, agent_signaling_url, check_pick_up, take_up, remove_queued, submit_result,
}
use bca_mobile_api.VideoCall.Moves.{Moves}
use bca_mobile_api.VideoCall.Run.{
  pick_up, submit, cancel, list_calls, perform_all, perform_all-Moves,
}
use bca_mobile_api.VideoCall.Decision.{IsTakenTwice, take_up-take_up, agent_signaling_url-exclusive}
use bca_mobile_api.VideoCall.Progress.{submit_result-WorldProgress}

abbrev session_env : SessionEnv
session_env = record {
  fault = λ c. none;
  now = 5000;
  cache_reads = true;
  cache_writes = true;
  new_id = 1;
  short_id = some "a1";
}

abbrev env : Env
env = record {
  now = 5000;
  jakarta_hour = some 9;
  fault = λ c. none;
  session_env = session_env;
  new_queue_id = 8;
  has_escalations = true;
  terminal = λ agent. none;
}

abbrev customer : Session
customer = record {
  id = 1;
  session_id = "onb_a1";
  device_id = "dev-1";
  product_type = "TAHAPAN_BCA";
  current_step = video_call;
  tnc_version = "2026";
  steps_completed = record {
    tnc_accepted = true;
    ocr_verified = true;
    personal_data_saved = true;
    otp_verified = true;
    biometric_verified = true;
    video_call_verified = false;
    credentials_set = false;
    submitted = false;
    card_selected = false;
  };
  created_at = 4000;
  updated_at = 4000;
  expires_at = 90400;
  deleted_at = none;
  card_type = "";
  card_selected_at = none;
  card_catalog_version = "";
  product_catalog_version = "";
  min_initial_deposit_shown = 0;
}

abbrev waiting : VideoCall
waiting = record {
  queue_id = 7;
  session_id = "onb_a1";
  status = queued;
  agent_employee_id = "";
  agent_name = "";
  result = none;
  joined_at = 4900;
  started_at = none;
  ended_at = none;
}

abbrev one_call : CallWorld
one_call = record {
  calls = waiting ∷ [];
  queue = record { member = 7; score = 4900 } ∷ [];
  escalations = [];
  onboarding = record { rows = customer ∷ []; cache = customer ∷ [] };
}

abbrev decision : SubmitRequest
decision = record { queue_id = 7; session_id = "onb_a1"; result = approved; is_valid = true }

abbrev picked : CallWorld
picked = (agent_signaling_url env 7 "E1" "Ani" one_call).1

perform_all-Moves_example :
    Moves
      (waiting ∷ [])
      (perform_all
        (pick_up env 7 "E1" "Ani"
          ∷ submit env decision "E1"
          ∷ cancel env "onb_a1"
          ∷ list_calls env
          ∷ [])
        one_call).calls
perform_all-Moves_example =
    perform_all-Moves
      (pick_up env 7 "E1" "Ani"
        ∷ submit env decision "E1"
        ∷ cancel env "onb_a1"
        ∷ list_calls env
        ∷ [])
      one_call

checked : check_pick_up env 7 "E1" one_call ≡ (ok waiting, one_call)
unfolding check_pick_up find_by_queue_id
checked = refl

checked_too : check_pick_up env 7 "E2" one_call ≡ (ok waiting, one_call)
unfolding check_pick_up find_by_queue_id
checked_too = refl

take_up-take_up_example : IsTakenTwice env env 7 "E1" "Ani" "E2" "Budi" one_call
take_up-take_up_example =
    take_up-take_up env env 7 "E1" "Ani" "E2" "Budi" waiting waiting one_call one_call one_call refl
      checked checked_too refl refl refl refl

picked_up : agent_signaling_url env 7 "E1" "Ani" one_call ≡ (ok waiting, picked)
unfolding agent_signaling_url check_pick_up take_up find_by_queue_id change_call remove_queued
    remove_member
picked_up = refl

agent_signaling_url-exclusive_example :
    agent_signaling_url env 7 "E2" "Budi" picked ≢ (ok waiting, picked)
agent_signaling_url-exclusive_example =
    agent_signaling_url-exclusive env env 7 "E1" "Ani" "E2" "Budi" waiting waiting one_call picked
      picked refl picked_up

customer-Progress : SessionProgress customer
customer-Progress = record {
  past_tnc = λ l. refl;
  past_ocr = λ l. refl;
  past_personal = λ l. refl;
  past_otp = λ l. refl;
  past_biometric = λ l. refl;
  past_video = λ l. let bad : ⊥ = omega arith in absurd bad;
  past_credentials = λ l. let bad : ⊥ = omega arith in absurd bad;
  past_review = λ l. let bad : ⊥ = omega arith in absurd bad;
}

picked-Progress : WorldProgress picked.onboarding
unfolding agent_signaling_url
picked-Progress = ((customer-Progress, tt), (customer-Progress, tt))

submit_result-WorldProgress_example :
    WorldProgress (submit_result env decision "E1" picked).1.onboarding
submit_result-WorldProgress_example =
    submit_result-WorldProgress env decision "E1" picked picked-Progress
