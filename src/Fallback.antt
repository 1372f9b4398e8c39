-- ===== src/Fallback.antt =====
-- `retry_with_fallback_models` of pr_agent/algo/pr_processing.py and its helpers.
pub mod Message
pub mod Laws
pub mod Order
use achord_review.Prelude.{
  ℕ, zero, suc, ◌+◌, ◌-◌, Bool, true, false, ◌||◌, Option, none, some, List, [], ◌∷◌, ◌++◌, map,
  length, ltb, ◌==◌, null, if◌then◌else◌,
}
use achord_review.Text.{Text, join, strip}
use achord_review.Text.Parts.{split_code}
use achord_review.Fallback.Message.{Failure, bounded_failure_reason, format_all_models_failed}

pub data ModelType : Type 0 where
  regular weak reasoning : ModelType

-- A setting that may be a list or a text with commas.
pub data NameList : Type 0 where
  names : List Text → NameList
  comma_text : Text → NameList

abbrev pub list_of : NameList → List Text
list_of (names xs) = xs
list_of (comma_text s) = map strip (split_code b',' s)

-- The settings that are read; an empty text is a setting that is not there.
pub record ModelSettings : Type 0 where
  pub model : Text
  pub model_weak : Text
  pub model_reasoning : Text
  pub fallback_models : NameList
  pub deployment_id : Option Text
  pub fallback_deployments : NameList

-- `get_model` of pr_agent/algo/utils.py
abbrev pub get_model : ModelSettings → ModelType → Text
get_model st regular = st.model
get_model st weak = if null st.model_weak then st.model else st.model_weak
get_model st reasoning = if null st.model_reasoning then st.model else st.model_reasoning

unfoldable pub get_all_models : ModelSettings → ModelType → List Text
get_all_models st model_type = get_model st model_type ∷ list_of st.fallback_models

-- The fallback deployments that are set: an empty text counts as none.
abbrev pub deployments_of : NameList → List Text
deployments_of (names xs) = xs
deployments_of (comma_text []) = []
deployments_of (comma_text (c ∷ s)) = list_of (comma_text (c ∷ s))

abbrev pub repeat : Option Text → List Text → List (Option Text)
repeat d [] = []
repeat d (_ ∷ models) = d ∷ repeat d models

-- The deployments for the models, from the first and the fallback deployments.
unfoldable pub assign_deployments :
    Option Text → List Text → List Text → Option (List (Option Text))
assign_deployments deployment_id [] all_models = some (repeat deployment_id all_models)
assign_deployments deployment_id (d ∷ ds) all_models =
    let all_deployments = deployment_id ∷ map some (d ∷ ds) in
    if ltb (length all_deployments) (length all_models) then none else some all_deployments

-- `none` is the `ValueError` for too few deployments.
unfoldable pub get_all_deployments : ModelSettings → List Text → Option (List (Option Text))
unfolding assign_deployments
get_all_deployments st all_models =
    assign_deployments st.deployment_id (deployments_of st.fallback_deployments) all_models

-- How one prediction ended.
pub data Outcome {ℓ} (A : Type ℓ) : Type ℓ where
  success : A → Outcome A
  failure : Failure → Outcome A

-- What `retry_with_fallback_models` does in the end: it returns, it raises the message about all models,
-- it raises the `ValueError` about the deployments, or it leaves the loop and returns `None`.
pub data Retried {ℓ} (A : Type ℓ) : Type ℓ where
  returned : A → Retried A
  raised : Text → Retried A
  nothing too_few_deployments : Retried A

-- What the loop touches besides the models: the setting `openai.deployment_id` and the collector of
-- pr_agent/algo/run_details.py. The caller's `f` may read and change the state.
pub record Session {ℓ κ} (A : Type ℓ) (S : Type κ) : Type (ℓ ⊔ κ) where
  pub set_deployment : Option Text → S → S
  pub record_model_used : Text → Bool → S → S
  pub predict : Text → S → Outcome A × S

module _ {ℓ κ} {A : Type ℓ} {S : Type κ} (session : Session A S) where
  -- What follows attempt `i` of `count`; `again` is the rest of the loop.
  unfoldable pub after_attempt :
      ℕ
      → ℕ
      → List (Text × Text)
      → Text
      → (List (Text × Text) → S → Retried A × S)
      → Outcome A × S
      → Retried A × S
  unfolding bounded_failure_reason format_all_models_failed
  after_attempt i count reasons model again (success result, s) =
      (returned result, session.record_model_used model (ltb 0 i) s)
  after_attempt i count reasons model again (failure error, s) =
      let failed = reasons ++ (model, bounded_failure_reason error) ∷ [] in
      if suc i == count then (raised (format_all_models_failed failed), s) else again failed s

  -- The loop from attempt `i` of `count` on, with the models and deployments that are left.
  unfoldable pub retry_loop :
      ℕ → ℕ → List (Text × Text) → List Text → List (Option Text) → S → Retried A × S
  unfolding after_attempt
  retry_loop i count reasons [] _ s = (nothing, s)
  retry_loop i count reasons (_ ∷ _) [] s = (nothing, s)
  retry_loop i count reasons (model ∷ models) (deployment ∷ deployments) s =
      after_attempt i count reasons model
        (λ failed after. retry_loop (suc i) count failed models deployments after)
        (session.predict model (session.set_deployment deployment s))

  unfoldable pub try_deployments : List Text → Option (List (Option Text)) → S → Retried A × S
  unfolding retry_loop
  try_deployments all_models none s = (too_few_deployments, s)
  try_deployments all_models (some ds) s = retry_loop 0 (length all_models) [] all_models ds s

  unfoldable pub retry_with_fallback_models : ModelSettings → ModelType → S → Retried A × S
  unfolding get_all_models get_all_deployments try_deployments
  retry_with_fallback_models st model_type s =
      let all_models = get_all_models st model_type in
      try_deployments all_models (get_all_deployments st all_models) s
