-- ===== src/ProcessPool/Reap.antt =====
-- How the parent of socket/pool/processpool.h takes note of children that have ended.
use unix_programming.Base.{
  ℕ, zero, suc, ◌≡◌, refl, ap, ◌∙◌, ◌↔◌, inl, inr, Bool, true, false, none, some, List, [], ◌∷◌,
  arith, Bool-cases, ◌==◌, if◌then◌else◌, ◌||◌, map,
}
use mathlib.Core.Path.{ap₂}
use unix_programming.ProcessPool.{
  Process, Parent, is_live, has_pid, reap_one, reap, none_live, sigchld, parent_signal,
}

abbrev pub contains : ℕ → List ℕ → Bool
contains x [] = false
contains x (y ∷ ys) = (x == y) || contains x ys

-- a child with its pid struck out if it is among those that have ended
abbrev pub struck : List ℕ → Process → Process
struck pids p = elim p.pid [
  | none ↦ p
  | some q ↦ if contains q pids then record p { pid = none } else p
]

struck_one :
    (pid : ℕ) (p : Process)
    → struck (pid ∷ []) p ≡ (if has_pid pid p then record p { pid = none } else p)
struck_one pid p = ground arith

reap_one-struck : (pid : ℕ) (ps : List Process) → (reap_one pid ps).0 ≡ map (struck (pid ∷ [])) ps
unfolding reap_one
reap_one-struck pid [] = refl
reap_one-struck pid (p ∷ ps) = elim (Bool-cases (has_pid pid p)) [
  | inl hit ↦
      rw (hit, struck_one pid p, hit) (ap (◌∷◌ (record p { pid = none })) (reap_one-struck pid ps))
  | inr miss ↦ rw (miss, struck_one pid p, miss) (ap (◌∷◌ p) (reap_one-struck pid ps))
]

struck-struck :
    (pid : ℕ) (pids : List ℕ) (p : Process)
    → struck pids (struck (pid ∷ []) p) ≡ struck (pid ∷ pids) p
struck-struck pid pids p = ground arith

map-struck :
    (pid : ℕ) (pids : List ℕ) (ps : List Process)
    → map (struck pids) (map (struck (pid ∷ [])) ps) ≡ map (struck (pid ∷ pids)) ps
map-struck pid pids [] = refl
map-struck pid pids (p ∷ ps) = ap₂ ◌∷◌ (struck-struck pid pids p) (map-struck pid pids ps)

struck-nil : (ps : List Process) → ps ≡ map (struck []) ps
struck-nil [] = refl
struck-nil (p ∷ ps) = ap₂ ◌∷◌ (ground arith) (struck-nil ps)

reap-struck : (pids : List ℕ) (ps : List Process) → (reap pids ps).0 ≡ map (struck pids) ps
unfolding reap
reap-struck [] ps = struck-nil ps
reap-struck (pid ∷ pids) ps =
    reap-struck pids (reap_one pid ps).0
    ∙ ap (map (struck pids)) (reap_one-struck pid ps)
    ∙ map-struck pid pids ps

none_live→dead : (ps : List Process) → none_live ps ≡ true → (i : ℕ) → is_live ps i ≡ false
unfolding none_live is_live
none_live→dead [] e i = refl
none_live→dead (p ∷ ps) e zero = ground arith
none_live→dead (p ∷ ps) e (suc i) = none_live→dead ps (ground arith) i

dead→none_live : (ps : List Process) → ((i : ℕ) → is_live ps i ≡ false) → none_live ps ≡ true
unfolding none_live is_live
dead→none_live [] h = refl
dead→none_live (p ∷ ps) h =
    let here = h zero in let rest = dead→none_live ps (λ i. h (suc i)) in ground arith

-- On SIGCHLD the parent strikes out the pid of exactly the children whose pids waitpid gave, leaves
-- the other children and the counter alone, and then is told to stop exactly if no child is live.
pub sigchld-struck :
    (pids : List ℕ) (s : Parent)
    → let r = (parent_signal (sigchld pids) s).0 in
      (r.sub_process ≡ map (struck pids) s.sub_process)
      × (r.counter ≡ s.counter)
      × ((r.stop ≡ true) ↔ ((i : ℕ) → is_live r.sub_process i ≡ false))
unfolding parent_signal
sigchld-struck pids s =
    let ps = (reap pids s.sub_process).0 in
    (reap-struck pids s.sub_process, refl, (none_live→dead ps, dead→none_live ps))
