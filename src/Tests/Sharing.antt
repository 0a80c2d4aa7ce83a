-- ===== src/Tests/Sharing.antt =====
-- src/sftp/transfer/: the window and the limiter on small runs.
use ax_ssh.Prelude.{map, replicate, ℕ, ◌+◌, true, false, ◌≡◌, refl, List, [], ◌∷◌, ◌==◌, arith}
use ax_ssh.Transfers.Window.{
  Log, Use, pushes, polls, run_window, fresh_log, IsOrdered, run_window-IsOrdered,
  run_window-drains,
}
use ax_ssh.Transfers.Limiter.{
  Move, advances, limits, new_limiter, run_limiter, IsLimited, run_limiter-IsLimited, holding,
  refused,
}

abbrev double : ℕ → ℕ
double n = n + n

-- The second reply comes before the first.
abbrev uses : List Use
uses =
    pushes (λ i. false) 1
    ∷ pushes (λ i. i == 2) 2
    ∷ polls (λ i. false)
    ∷ polls (λ i. i == 1)
    ∷ polls (λ i. false)
    ∷ []

results-run_window : (run_window double uses (fresh_log double)).results ≡ 2 ∷ 4 ∷ []
unfolding run_window
results-run_window = refl

run_window-IsOrdered_example : IsOrdered double (run_window double uses (fresh_log double))
run_window-IsOrdered_example = run_window-IsOrdered double uses

-- The state after two pushes, with nothing ready.
abbrev two_pushed : Log double
two_pushed =
    run_window double (pushes (λ i. false) 1 ∷ pushes (λ i. false) 2 ∷ []) (fresh_log double)

run_window-drains_example :
    (run_window double (replicate 2 (polls (λ i. true))) two_pushed).results
    ≡ map double two_pushed.accepted
unfolding run_window
run_window-drains_example =
    run_window-drains double 2 two_pushed
      (run_window-IsOrdered double (pushes (λ i. false) 1 ∷ pushes (λ i. false) 2 ∷ [])) refl

-- Two uploads race for one permit, and the limit is raised too late for the second.
abbrev moves : List Move
moves =
    advances 0
    ∷ advances 1
    ∷ advances 0
    ∷ advances 1
    ∷ advances 0
    ∷ advances 1
    ∷ advances 1
    ∷ advances 1
    ∷ advances 1
    ∷ limits 2
    ∷ []

uploads-run_limiter : (run_limiter moves (new_limiter 1 2)).uploads ≡ holding ∷ refused ∷ []
unfolding run_limiter new_limiter
uploads-run_limiter = refl

run_limiter-IsLimited_example : IsLimited 2 (run_limiter moves (new_limiter 1 2))
run_limiter-IsLimited_example = run_limiter-IsLimited 2 1 2 moves (omega arith) (omega arith, tt)
