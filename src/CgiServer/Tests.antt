-- ===== src/CgiServer/Tests.antt =====
-- A request in three reads, and the theorems on socket/pool/cgi_server.cpp at it.
use unix_programming.Base.{
  ℕ, ◌-◌, ◌≡◌, refl, true, Bool, List, [], ◌∷◌, ◌++◌, arith, map, Gives, take, ◌==◌, length,
}
use unix_programming.Base.Text.{codes, c_string, until_nul}
use unix_programming.Base.Text.Laws.{before_nul}
use unix_programming.CgiServer.{
  new_conn, bytes, closed, runs, ends_line, scan, run_program, process,
}
use unix_programming.CgiServer.Line.{new_conn-Holds, answered}
use unix_programming.CgiServer.Request.{joined, process-answered}

-- "./ad", "d\r", "\nGET"
abbrev first_reads : List (List ℕ)
first_reads = codes "./ad" ∷ (b'd' ∷ 13 ∷ []) ∷ []

abbrev last_read : List ℕ
last_read = 10 ∷ codes "GET"

abbrev exists_add : List ℕ → Bool
exists_add name = length name == 5

process-answered_example :
    Gives
      (λ r.
        r.1
        ≡ answered exists_add true
            (before_nul (take (6 - 1) (([] ++ joined first_reads) ++ last_read))))
      (process exists_add true new_conn (map bytes first_reads ++ (bytes last_read ∷ closed ∷ [])))
process-answered_example =
    process-answered exists_add true first_reads last_read [] new_conn (closed ∷ []) 6
      new_conn-Holds (omega arith) (omega arith) (omega arith) refl refl

runs_add :
    Gives
      (λ r. r.1 ≡ runs (codes "./add"))
      (process exists_add true new_conn (map bytes first_reads ++ (bytes last_read ∷ [])))
unfolding process new_conn scan ends_line run_program c_string until_nul
runs_add = Gives.gives refl
