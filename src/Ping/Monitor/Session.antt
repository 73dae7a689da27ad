-- ===== src/Ping/Monitor/Session.antt =====
-- The Wi-Fi session: which texts are recorded, and what the state says after any records and errors.
use srx.Prelude.{
  ℕ, ◌≤◌, ◌≡◌, Bool, true, false, none, is_some, String, List, [], ◌∷◌, ◌++◌, length, All,
  eq_string, ◌==◌,
}
use srx.Prelude.Int.{ℤ}
use srx.Prelude.Text.{is_infix}
use srx.Ping.{Floats}
use srx.Ping.Link.{Link}
use srx.Ping.Accounts.{Sample, answered, empty, probes}
use srx.Ping.Monitor.{Config, Wifi, as_float, record_link, record_wifi_error}

abbrev pub is_mark : String → Bool
is_mark line = is_infix "===MARK===" line

-- The lines of a block: none of them holds the marker.
abbrev pub IsBlock : List String → Type 0
IsBlock ls = All (λ line. is_mark line ≡ false) ls

-- Lines that come before the quiet hours.
abbrev pub awake : List String → List (Bool × String)
awake [] = []
awake (l ∷ ls) = (false, l) ∷ awake ls

-- Blocks, a marker line behind each, then some lines of a block that is not complete, then the rest.
abbrev pub session :
    String → List (List String) → List String → List (Bool × String) → List (Bool × String)
session mark [] held rest = awake held ++ rest
session mark (b ∷ bs) held rest = awake b ++ (false, mark) ∷ session mark bs held rest

-- The session has ended, or its next line comes in the quiet hours.
abbrev pub IsOver : List (Bool × String) → Type 0
IsOver [] = Unit
IsOver ((quiet, line) ∷ rest) = quiet ≡ true

-- The blocks that have a line.
abbrev pub nonempty : List (List String) → List (List String)
nonempty [] = []
nonempty ([] ∷ bs) = nonempty bs
nonempty ((l ∷ ls) ∷ bs) = (l ∷ ls) ∷ nonempty bs

-- What happens to the state: a link is recorded, or an error with its text.
pub data Call (R : Type 0) : Type 0 where
  sees : ℕ → Link R → Call R
  errs : ℕ → String → Call R

module _ {R : Type 0} ⦃f : Floats R⦄ (c : Config) (of_ℤ : ℤ → R) where
  pub after_calls : Wifi R → List (Call R) → Wifi R
  after_calls w [] = w
  after_calls w (sees now info ∷ calls) = after_calls (record_link c of_ℤ w now info) calls
  after_calls w (errs now msg ∷ calls) = after_calls (record_wifi_error c w now msg) calls

  -- The sample of a call: the signal, none where there is no signal.
  abbrev pub signal_sample : Call R → Sample R
  signal_sample (sees now info) = (now, as_float of_ℤ info.signal)
  signal_sample (errs now msg) = (now, none)

  abbrev lost : ℕ → Sample R
  lost now = (now, none)

  -- An error has a text.
  abbrev pub IsSpoken : Call R → Type 0
  IsSpoken (sees now info) = Unit
  IsSpoken (errs now msg) = (msg == "") ≡ false

  -- The state accounts for these samples, and it names no error only while a link with a signal is up.
  pub record Reports (w : Wifi R) (log : List (Sample R)) : Type 0 where
    pub total_all : w.samples_total ≡ length log
    pub ok_le : w.samples_ok ≤ answered log
    pub filled : w.window ≡ probes c.buckets c.bucket_sec empty log
    pub honest : (w.error == "") ≡ true → (w.connected ≡ true) × (is_some w.signal ≡ true)
