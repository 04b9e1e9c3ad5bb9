-- ===== src/Diagnose/Risk/Safe.antt =====
-- What a command line that is classified as safe does not do.
use solomon.Prelude.{ℕ, suc, ◌≡◌, false, not, ◌&&◌, List, drop, Text}
use solomon.Diagnose.Commands.{command_positions, command_start_at}
use solomon.Diagnose.Commands.Positions.{contains}
use solomon.Diagnose.Risk.{escalates, reaches_network, mutates, is_known_safe}

-- What holds of the word at `index`, with the words behind it, in a line that is safe.
pub record IsHarmless (words : List Text) (index : ℕ) (word : Text) : Type 0 where
  pub no_escalation :
      (command_start_at words index && escalates word (drop (suc index) words)) ≡ false
  pub no_network :
      (command_start_at words index && reaches_network word (drop (suc index) words)) ≡ false
  pub no_mutation :
      (contains index (command_positions words) && mutates word (drop (suc index) words)) ≡ false
  pub known :
      (contains index (command_positions words)
        && not (is_known_safe word (drop (suc index) words)))
      ≡ false
