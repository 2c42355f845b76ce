-- ===== src/HttpConn/Send/Sends.antt =====
-- What write() of socket/pool/http_conn.cpp puts on the socket, and when it closes.
use unix_programming.Base.{
  ℕ, ◌+◌, ◌≤◌, ◌<◌, ◌≡◌, refl, ap, ◌∙◌, true, false, some, none, List, ◌∷◌, ◌++◌, arith, ◌==◌,
  if◌then◌else◌, length, take, length-take, take-length, pos, Bool, sub, leb_ℕ,
}
use unix_programming.HttpConn.{HttpConn, file_request, blocks}
use unix_programming.HttpConn.Connection.{Server, removefd, modfd_in, modfd_out, init, close_conn}
use unix_programming.HttpConn.Response.{
  process_write, answer_file, add_response, add_status_line, add_headers, add_content_length,
  add_linger, add_blank_line, add_content,
}
use unix_programming.HttpConn.Send.{
  Writev, wrote, tell, unmap, written, finish, write_loop, write, answer,
}

half_sent : (n k j : ℕ) → k ≤ j → n ≤ k + j → leb_ℕ (sub (pos n) k) j ≡ true
half_sent n k j h = ground arith

finish_lem :
    (c : HttpConn) (w : Server) (out : List ℕ)
    → finish c w out
      ≡ written c.linger
          (if c.linger then init (unmap c) else unmap c)
          (tell (modfd_in c.sockfd) w)
          out
unfolding finish
finish_lem c w out = by_linger c.linger
  where
    by_linger :
        (b : Bool)
        → (if b
            then written true (init (unmap c)) (tell (modfd_in c.sockfd) w) out
            else written false (unmap c) (tell (modfd_in c.sockfd) w) out)
          ≡ written b (if b then init (unmap c) else unmap c) (tell (modfd_in c.sockfd) w) out
    by_linger true = refl
    by_linger false = refl

module _ (c : HttpConn) (w : Server) (not_empty : 0 < length c.write_buf) where
  first_ends :
      (k : ℕ) (rs : List Writev)
      → length c.write_buf ≤ k + k
      → write c w (wrote k ∷ rs) ≡ some (finish c w (take k (blocks c.iv)))
  unfolding write write_loop
  first_ends k rs h =
      let more : (length c.write_buf == 0) ≡ false = ground arith in
      let enough = half_sent (length c.write_buf) k (0 + k) (omega arith) (omega arith) in
      rw (more, enough)

  -- If the first writev takes all the blocks (which are no shorter than m_write_idx), write() has
  -- put exactly them on the socket and unmapped the file. It waits for the next request: with
  -- keep-alive the connection is reset and write() returns true, else it returns false.
  pub write-whole :
      (rs : List Writev)
      → length c.write_buf ≤ length (blocks c.iv)
      → write c w (wrote (length (blocks c.iv)) ∷ rs)
        ≡ some (
            written c.linger
              (if c.linger then init (unmap c) else unmap c)
              (tell (modfd_in c.sockfd) w)
              (blocks c.iv))
  write-whole rs h =
      rw (first_ends (length (blocks c.iv)) rs (omega arith), take-length (blocks c.iv))
        (ap some (finish_lem c w (blocks c.iv)))

  -- If the first writev takes at least half of m_write_idx, but not all the blocks, write() ends as
  -- after a whole answer: the file is unmapped, with keep-alive the connection is reset and write()
  -- returns true, else it returns false; and what is on the socket is a proper prefix of the blocks.
  pub write-cut :
      (k : ℕ) (rs : List Writev)
      → length c.write_buf ≤ k + k
      → k < length (blocks c.iv)
      → (write c w (wrote k ∷ rs)
          ≡ some (
              written c.linger
                (if c.linger then init (unmap c) else unmap c)
                (tell (modfd_in c.sockfd) w)
                (take k (blocks c.iv))))
        × (length (take k (blocks c.iv)) < length (blocks c.iv))
  write-cut k rs h short = (
    first_ends k rs h ∙ ap some (finish_lem c w (take k (blocks c.iv))),
    omega (arith, length-take k (blocks c.iv)),
  )

  -- If the first writev takes k bytes, less than half of m_write_idx, the second is handed the same
  -- blocks from their start. Where it takes j bytes and the two counts come to at least half of
  -- m_write_idx, write() ends as after a whole answer, with the file unmapped and, for keep-alive, the
  -- connection reset, and the socket has got the first k bytes of the blocks and then the first j
  -- bytes of them again.
  pub write-repeats :
      (k j : ℕ) (rs : List Writev)
      → k + k < length c.write_buf
      → length c.write_buf ≤ (k + j) + (k + j)
      → write c w (wrote k ∷ wrote j ∷ rs)
        ≡ some (
            written c.linger
              (if c.linger then init (unmap c) else unmap c)
              (tell (modfd_in c.sockfd) w)
              (take k (blocks c.iv) ++ take j (blocks c.iv)))
  unfolding write write_loop
  write-repeats k j rs small enough =
      let n = length c.write_buf in
      let more : (n == 0) ≡ false = ground arith in
      let goes_on : leb_ℕ (sub (pos n) k) (0 + k) ≡ false = ground arith in
      let ends : leb_ℕ (sub (sub (pos n) k) j) (0 + k + j) ≡ true = ground arith in
      rw (more, goes_on, ends)
        (ap some (finish_lem c w (take k (blocks c.iv) ++ take j (blocks c.iv))))

close_conn-some :
    (c : HttpConn) (w : Server) (fd : ℕ)
    → c.sockfd ≡ some fd
    → close_conn true c w ≡ (
      record c { sockfd = none },
      record { user_count = sub w.user_count 1; effects = removefd fd ∷ w.effects },
    )
unfolding close_conn
close_conn-some c w fd e = rw (e, close_conn)

add_response-same :
    (text : List ℕ) (c : HttpConn)
    → ((add_response text c).1.sockfd ≡ c.sockfd)
      × ((add_response text c).1.file_size ≡ c.file_size)
unfolding add_response
add_response-same text c = ground arith

answer_file-empty :
    (c : HttpConn)
    → c.file_size ≡ 0
    → ((answer_file c).0 ≡ false) × ((answer_file c).1.sockfd ≡ c.sockfd)
unfolding answer_file add_status_line add_headers add_content_length add_linger add_blank_line
    add_content
answer_file-empty c h = grind (arith, add_response-same)

-- A request for an empty file is never answered: process() closes the connection and counts its
-- user off, though the file was found.
pub answer-empty_file :
    (c : HttpConn) (w : Server) (fd : ℕ)
    → c.sockfd ≡ some fd
    → c.file_size ≡ 0
    → ((answer (file_request, c) w).0.sockfd ≡ none)
      × ((answer (file_request, c) w).1 ≡ record {
        user_count = sub w.user_count 1;
        effects = modfd_out none ∷ removefd fd ∷ w.effects;
      })
unfolding answer process_write
answer-empty_file c w fd e empty =
    let (refused, same) = answer_file-empty c empty in
    let open_ : (answer_file c).1.sockfd ≡ some fd = same ∙ e in
    rw (refused, close_conn-some (answer_file c).1 w fd open_) (refl, refl)
