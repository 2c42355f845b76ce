-- ===== src/CgiServer/Request.antt =====
-- A whole request to cgi_conn::process of socket/pool/cgi_server.cpp, in any number of reads.
use unix_programming.Base.{
  ℕ, ◌+◌, ◌-◌, ◌≤◌, ◌<◌, ◌≡◌, refl, ap, sym, ◌∙◌, Bool, none, some, List, [], ◌∷◌, ◌++◌, arith, map,
  length, length-append, append_assoc, append-nil, subst, All, Gives, gives, take,
}
use unix_programming.Base.Text.Laws.{before_nul}
use unix_programming.CgiServer.{CgiConn, Received, bytes, again, waits, process}
use unix_programming.CgiServer.Scan.{line_end, line_end-prefix}
use unix_programming.CgiServer.Line.{
  Holds, answered, extended, extended-Holds, reads_on, line_read, run_program-answered,
}

-- all the bytes of the reads
abbrev pub joined : List (List ℕ) → List ℕ
joined [] = []
joined (bs ∷ bss) = bs ++ joined bss

-- the reads bring some bytes each
abbrev pub AllSome : List (List ℕ) → Type 0
AllSome = All (λ bs. 0 < length bs)

module _ (exists : List ℕ → Bool) (forks : Bool) where
  -- Reads that bring no line yet: the loop goes on, with their bytes in the buffer.
  reads_all :
      (bss : List (List ℕ)) (text : List ℕ) (c : CgiConn) (rs : List Received)
      → Holds text c
      → AllSome bss
      → length text + length (joined bss) ≤ 1023
      → line_end none (text ++ joined bss) ≡ none
      → (c' : CgiConn) × (process exists forks c (map bytes bss ++ rs) ≡ process exists forks c' rs)
        × Holds (text ++ joined bss) c'
  reads_all [] text c rs h some_bytes fits e =
      (c, refl, subst (λ t. Holds t c) (sym (append-nil text)) h)
  reads_all (bs ∷ bss) text c rs h some_bytes fits e =
      let n = length-append bs (joined bss) in
      let assoc = append_assoc text bs (joined bss) in
      let whole : line_end none ((text ++ bs) ++ joined bss) ≡ none =
        ap (line_end none) assoc ∙ e in
      let first = line_end-prefix none (text ++ bs) (joined bss) whole in
      let m = length-append text bs in
      let (c', run, held) =
        reads_all bss (text ++ bs) (extended c bs) rs (extended-Holds text bs c h (omega arith))
          some_bytes.1 (omega arith) whole in
      (
        c',
        reads_on exists forks text bs c h some_bytes.0 (omega arith) (map bytes bss ++ rs) first
            ∙ run,
        subst (λ t. Holds t c') assoc held,
      )

  -- If the reads bring no whole line and then there is nothing to read, process() waits, and the
  -- buffer holds all the bytes that have come since init().
  pub process-waits :
      (bss : List (List ℕ)) (text : List ℕ) (c : CgiConn) (rs : List Received)
      → Holds text c
      → AllSome bss
      → length text + length (joined bss) ≤ 1023
      → line_end none (text ++ joined bss) ≡ none
      → Gives
          (λ r. (r.1 ≡ waits) × Holds (text ++ joined bss) r.0)
          (process exists forks c (map bytes bss ++ (again ∷ rs)))
  unfolding process
  process-waits bss text c rs h some_bytes fits e =
      let (c', run, held) = reads_all bss text c (again ∷ rs) h some_bytes fits e in
      rw run (gives (refl, held))

  -- When a read has completed the first line, the program is run (or the connection closed, where
  -- there is no such file or no child) whose name is the line up to a 0, if it has one. That does
  -- not depend on how the bytes were cut into reads, nor on what came with earlier calls of
  -- process(), as long as they are at most 1023 up to there.
  pub process-answered :
      (bss : List (List ℕ)) (last text : List ℕ) (c : CgiConn) (rs : List Received) (k : ℕ)
      → Holds text c
      → AllSome bss
      → 0 < length last
      → length text + length (joined bss) + length last ≤ 1023
      → line_end none (text ++ joined bss) ≡ none
      → line_end none ((text ++ joined bss) ++ last) ≡ some k
      → Gives
          (λ r.
            r.1 ≡ answered exists forks (before_nul (take (k - 1) ((text ++ joined bss) ++ last))))
          (process exists forks c (map bytes bss ++ (bytes last ∷ rs)))
  process-answered bss last text c rs k h some_bytes one fits e found =
      let (c', run, held) = reads_all bss text c (bytes last ∷ rs) h some_bytes (omega arith) e in
      let n = length-append text (joined bss) in
      rw
        (
          run,
          line_read exists forks (text ++ joined bss) last c' held one (omega arith) rs k e found,
        )
        (run_program-answered exists forks ((text ++ joined bss) ++ last) (extended c' last) k
          (extended-Holds (text ++ joined bss) last c' held (omega arith)) found)
