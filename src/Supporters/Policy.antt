-- ===== src/Supporters/Policy.antt =====
-- `founderPolicy` of src/supporters/founder-policy.ts. The environment's values come as arguments;
-- `Date.parse` of ECMAScript is the parameter `parse`, `none` for NaN. The hold hours are given as
-- read by `Number`: `none` for what is not a whole number of at least 0.
use uncs_bot.Common.{
  Bool, List, Option, String, [], false, if◌then◌else◌, leb, none, not, some, true, truthy, ℕ, ◌&&◌,
  ◌++◌, ◌-◌, ◌==◌, ◌||◌, ◌∷◌,
}
use uncs_bot.Supporters.Founder.{
  FounderPolicy, PolicySource, minimum_cents, minimum_currency, patreon_founder, policy_ms,
  supporter_founder,
}

abbrev pub hold_default : ℕ
hold_default = 72

abbrev pub hold_of : Option ℕ → ℕ
hold_of none = hold_default
hold_of (some hold) = if leb hold 720 then hold else hold_default

abbrev pub unconfigured : Option ℕ → FounderPolicy
unconfigured hold = record {
  amount_cents = minimum_cents;
  currency = minimum_currency;
  starts_at = none;
  ends_at = none;
  configured = false;
  source = none;
  hold_hours = hold_of hold;
}

-- A pair of environment values and where it comes from.
pub record Pair : Type 0 where
  pub source : PolicySource
  pub start : Option String
  pub end : Option String

-- A complete pair, parsed.
pub record Window : Type 0 where
  pub source : PolicySource
  pub start : Option ℕ
  pub end : Option ℕ

abbrev pub half_set : Pair → Bool
half_set p = if truthy p.start then not (truthy p.end) else truthy p.end

-- NaN is not equal to itself.
abbrev same_time : Option ℕ → Option ℕ → Bool
same_time (some a) (some b) = a == b
same_time _ _ = false

abbrev pub disagree : List Window → Bool
disagree (a ∷ b ∷ []) = not (same_time a.start b.start) || not (same_time a.end b.end)
disagree _ = false

abbrev pub window_of : Option ℕ → PolicySource → Option ℕ → Option ℕ → FounderPolicy
window_of hold source (some start) (some end) =
    if leb start end && (end - start) == policy_ms
    then record {
      amount_cents = minimum_cents;
      currency = minimum_currency;
      starts_at = some start;
      ends_at = some end;
      configured = true;
      source = some source;
      hold_hours = hold_of hold;
    }
    else unconfigured hold
window_of hold source _ _ = unconfigured hold

abbrev pub chosen : Option ℕ → List Window → FounderPolicy
chosen hold [] = unconfigured hold
chosen hold (w ∷ ws) = window_of hold w.source w.start w.end

module _ (parse : String → Option ℕ) where
  unfoldable pub complete_from : PolicySource → Option String → Option String → List Window
  complete_from source (some start) (some end) =
      if truthy (some start) && truthy (some end)
      then (record { source = source; start = parse start; end = parse end }) ∷ []
      else []
  complete_from source _ _ = []

  unfoldable pub complete : Pair → List Window
  unfolding complete_from
  complete p = complete_from p.source p.start p.end

  abbrev pub policy_from : Option ℕ → Pair → Pair → FounderPolicy
  policy_from hold own other =
      if half_set own || half_set other
      then unconfigured hold
      else if disagree (complete own ++ complete other)
      then unconfigured hold
      else chosen hold (complete own ++ complete other)

  -- `founderPolicy`: the hold hours and the values of SUPPORTER_FOUNDER_* and PATREON_FOUNDER_*.
  unfoldable pub founder_policy :
      Option ℕ
      → (start end : Option String) → (patreon_start patreon_end : Option String) → FounderPolicy
  unfolding complete
  founder_policy hold start end patreon_start patreon_end =
      policy_from hold (record { source = supporter_founder; start = start; end = end })
        (record { source = patreon_founder; start = patreon_start; end = patreon_end })
