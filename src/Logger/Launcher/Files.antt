-- ===== src/Logger/Launcher/Files.antt =====
-- File 5, which the launcher (310551113_hw2/hw2.cpp) leaves to the log.
use advanced_programming_in.Base.{ℕ, ◌≡◌, ◌≢◌, arith, Option, none, some, [], ◌∷◌, if◌then◌else◌}
use advanced_programming_in.Base.{◌==◌}
use advanced_programming_in.Base.Text.{Text}
use advanced_programming_in.Logger.Launcher.{Shell, output}

-- `dup2` and `close` as they are documented, on the table of open files of a process.
pub record KeepsTable {K F : Type 0} (shell : Shell K) (table : K → ℕ → Option F) : Type 0 where
  pub dup2_lem :
      (k : K) (a b : ℕ) (file : F)
      → table k a ≡ some file
      → (x : ℕ) → table (shell.dup2 k a b) x ≡ (if x == b then some file else table k x)
  pub dup2_none :
      (k : K) (a b : ℕ) → table k a ≡ none → (x : ℕ) → table (shell.dup2 k a b) x ≡ table k x
  pub close_lem :
      (k : K) (a x : ℕ) → table (shell.close k a) x ≡ (if x == a then none else table k x)

-- The number and the process after `open`.
abbrev pub fd : {K : Type 0} → Shell K → Text → K → ℕ
fd shell name k = (shell.open_file k name).0

abbrev pub opened : {K : Type 0} → Shell K → Text → K → K
opened shell name k = (shell.open_file k name).1

module _ {K F : Type 0} (shell : Shell K) (table : K → ℕ → Option F)
    (keeps : KeepsTable shell table) where
  -- Without an output file, file 5 is the error stream, if there is one, and stays as it is if not.
  pub output_errors :
      (k : K)
      → ((file : F) → table k 2 ≡ some file → table (output shell [] k) 5 ≡ some file)
        × (table k 2 ≡ none → table (output shell [] k) 5 ≡ table k 5)
  unfolding output
  output_errors k =
      ((λ file e. ground (arith, keeps.dup2_lem k 2 5 file e 5)), (λ e. keeps.dup2_none k 2 5 e 5))

  -- With an output file that is opened under another number than 5, file 5 is that file, its own
  -- number is closed again, and all other files stay. If it is opened as 5, then file 5 is closed.
  -- If it cannot be opened, file 5 stays as it was.
  pub output_file :
      (c : ℕ) (name : Text) (k : K)
      → let number = fd shell (c ∷ name) k in
        let k₁ = opened shell (c ∷ name) k in
        let k₂ = output shell (c ∷ name) k in
        ((file : F)
          → table k₁ number ≡ some file
          → number ≢ 5
          → (x : ℕ)
          → table k₂ x ≡ (if x == number then none else if x == 5 then some file else table k₁ x))
        × (number ≡ 5 → table k₂ 5 ≡ none)
        × (table k₁ number ≡ none → number ≢ 5 → table k₂ 5 ≡ table k₁ 5)
  unfolding output
  output_file c name k = (
    (λ file e h x. ground (
      arith,
      keeps.dup2_lem (opened shell (c ∷ name) k) (fd shell (c ∷ name) k) 5 file e x,
      keeps.close_lem (shell.dup2 (opened shell (c ∷ name) k) (fd shell (c ∷ name) k) 5)
          (fd shell (c ∷ name) k) x,
    )),
    (λ h. ground (
      arith,
      keeps.close_lem (shell.dup2 (opened shell (c ∷ name) k) (fd shell (c ∷ name) k) 5)
          (fd shell (c ∷ name) k) 5,
    )),
    λ e h. ground (
      arith,
      keeps.dup2_none (opened shell (c ∷ name) k) (fd shell (c ∷ name) k) 5 e 5,
      keeps.close_lem (shell.dup2 (opened shell (c ∷ name) k) (fd shell (c ∷ name) k) 5)
          (fd shell (c ∷ name) k) 5,
    ),
  )
