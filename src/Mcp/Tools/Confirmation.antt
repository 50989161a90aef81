-- ===== src/Mcp/Tools/Confirmation.antt =====
-- internal/mcpserver/mcpserver.go: the confirmation in front of a purge. The code that
-- authenticates a confirmation, and the decimal form of a number, are parameters; a client that can
-- be asked sends its answer with the state that it was given.
use gotifacts.Prelude.{
  ℕ, ◌+◌, ◌*◌, ◌/◌, Bool, true, false, not, ◌∷◌, ◌++◌, Option, none, some, ltb, if◌then◌else◌, take,
}
use gotifacts.Text.{Text, codes, text_eq, index_byte}

-- The answer to a form, as far as it is looked at: Action is "accept", or anything else.
pub data Answer : Type 0 where
  accept other_answer : Answer

-- What a call of purge_site says about confirmation.
pub record Confirming : Type 0 where
  pub can_elicit : Bool
  pub answer : Option Answer
  pub request_state : Text

-- Elicitation of a client's capabilities: whether it has the fields Form and URL.
pub record Elicitation : Type 0 where
  pub form : Bool
  pub url : Bool

-- clientCanElicitForms
unfoldable pub client_can_elicit_forms : Option Elicitation → Bool
client_can_elicit_forms none = false
client_can_elicit_forms (some e) = if e.form then true else not e.url

-- What confirmPurge decides.
pub data Confirmed : Type 0 where
  proceed : Confirmed
  ask : Text → Confirmed
  rejected cancelled : Confirmed

module _ (mac : Text → Text) (format_int : ℕ → Text) (parse_int : Text → Option ℕ) where
  -- purgeToken, for the seconds at which it expires
  unfoldable pub purge_token : Text → Text → Text → ℕ → Text
  purge_token user group slug unix =
      format_int unix
      ++ b'.'
        ∷ mac (codes "purge" ++ 0 ∷ (user ++ 0 ∷ (group ++ 0 ∷ (slug ++ 0 ∷ format_int unix))))

  -- purgeTokenValid, at a time in nanoseconds
  unfoldable pub purge_token_valid : Text → Text → Text → Text → ℕ → Bool
  purge_token_valid token user group slug now = elim (index_byte token b'.') [
    | none ↦ false
    | some i ↦ elim (parse_int (take i token)) [
      | none ↦ false
      | some exp ↦
          if ltb (exp * 1000000000) now
          then false
          else text_eq (purge_token user group slug exp) token
    ]
  ]

  -- confirmPurge; a confirmation is good for five minutes
  unfoldable pub confirm_purge : Confirming → Text → Text → Text → ℕ → Confirmed
  confirm_purge c user group slug now = if not c.can_elicit then proceed else elim c.answer [
    | none ↦ ask (purge_token user group slug ((now + 300000000000) / 1000000000))
    | some answer ↦
        if not (purge_token_valid c.request_state user group slug now)
        then rejected
        else elim answer [ accept ↦ proceed | other_answer ↦ cancelled ]
  ]
