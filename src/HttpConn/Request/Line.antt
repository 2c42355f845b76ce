-- ===== src/HttpConn/Request/Line.antt =====
-- parse_request_line of socket/pool/http_conn.cpp reads a well-formed request line.
use unix_programming.Base.{
  ℕ, ◌+◌, Bool, not, ◌&&◌, ◌==◌, ◌≡◌, refl, sym, ap, ◌∙◌, true, false, some, List, [], ◌∷◌, ◌++◌,
  append_assoc, arith, length, length-append, set, get_elem?, ◌>>=◌,
}
use unix_programming.Base.Text.{codes, c_string, strpbrk, strspn, eq_nocase, prefix_nocase}
use unix_programming.Base.Text.Laws.{
  NoNul, NoBlank, c_string-at, strpbrk-append, set-append, get_elem?-append,
}
use unix_programming.HttpConn.{HttpConn, no_request, get, header}
use unix_programming.HttpConn.Request.{check_url, check_version, parse_request_line, reply}

-- a request line for a path, with a 0 behind it, in front of more bytes
abbrev pub request_line : (path rest : List ℕ) → List ℕ
request_line path rest = codes "GET" ++ (32 ∷ (path ++ (32 ∷ (codes "HTTP/1.1" ++ (0 ∷ rest)))))

-- the same cut into three strings
abbrev pub cut_line : (path rest : List ℕ) → List ℕ
cut_line path rest = codes "GET" ++ (0 ∷ (path ++ (0 ∷ (codes "HTTP/1.1" ++ (0 ∷ rest)))))

NoNul-append : (s t : List ℕ) → NoNul s → NoNul t → NoNul (s ++ t)
NoNul-append [] t h k = k
NoNul-append (c ∷ s) t h k = (h.0, NoNul-append s t h.1 k)

-- the same as a test, for a text that is given
abbrev pub nul_free : List ℕ → Bool
nul_free [] = true
nul_free (c ∷ s) = not (c == 0) && nul_free s

pub nul_free→NoNul : (s : List ℕ) → nul_free s ≡ true → NoNul s
nul_free→NoNul [] h = tt
nul_free→NoNul (c ∷ s) h = (ground arith, nul_free→NoNul s (ground arith))

-- the three functions on a buffer whose strings are known
check_url-starts :
    (url : ℕ) (c : HttpConn) (s : List ℕ)
    → c_string c.read_buf url ≡ some s
    → prefix_nocase s (codes "http://") ≡ false
    → get_elem? c.read_buf url ≡ some b'/'
    → check_url url c ≡ reply no_request (record c { url = some url; check_state = header })
unfolding check_url
check_url-starts url c s text relative slash =
    rw (text, ◌>>=◌) (rw relative (rw (slash, ◌>>=◌) (rw relative refl)))

check_version-starts :
    (url k : ℕ) (c : HttpConn) (s blanks v : List ℕ)
    → c_string c.read_buf url ≡ some s
    → strpbrk s ≡ some k
    → c_string (set c.read_buf (url + k) 0) (url + k + 1) ≡ some blanks
    → c_string (set c.read_buf (url + k) 0) (url + k + 1 + strspn blanks) ≡ some v
    → eq_nocase v (codes "HTTP/1.1") ≡ true
    → check_version url c
      ≡ check_url url (record c {
        read_buf = set c.read_buf (url + k) 0;
        url = some url;
        version = some (url + k + 1 + strspn blanks);
      })
unfolding check_version
check_version-starts url k c s blanks v text blank behind version right =
    rw (text, ◌>>=◌) (rw blank (rw (behind, ◌>>=◌) (rw (version, ◌>>=◌) (rw right refl))))

parse_request_line-starts :
    (text k : ℕ) (c : HttpConn) (s method behind : List ℕ)
    → c_string c.read_buf text ≡ some s
    → strpbrk s ≡ some k
    → c_string (set c.read_buf (text + k) 0) text ≡ some method
    → eq_nocase method (codes "GET") ≡ true
    → c_string (set c.read_buf (text + k) 0) (text + k + 1) ≡ some behind
    → parse_request_line text c
      ≡ check_version (text + k + 1 + strspn behind) (record c {
        read_buf = set c.read_buf (text + k) 0;
        url = some (text + k + 1);
        method = get;
      })
unfolding parse_request_line
parse_request_line-starts text k c s method behind line blank first right rest =
    rw (line, ◌>>=◌) (rw blank (rw (first, ◌>>=◌) (rw right (rw (rest, ◌>>=◌) refl))))

module _ (c : HttpConn) (pre rest p : List ℕ) (no_nul : NoNul (b'/' ∷ p))
    (no_blank : NoBlank (b'/' ∷ p)) where
  abbrev path : List ℕ
  path = b'/' ∷ p

  abbrev version_text : List ℕ
  version_text = codes "HTTP/1.1"

  abbrev buffer : List ℕ
  buffer = pre ++ request_line path rest

  -- the buffer behind the first write, and the second
  abbrev once : List ℕ
  once = pre ++ (codes "GET" ++ (0 ∷ (path ++ (32 ∷ (version_text ++ (0 ∷ rest))))))

  abbrev twice : List ℕ
  twice = pre ++ cut_line path rest

  abbrev start : ℕ
  start = length pre

  version-NoNul : NoNul version_text
  version-NoNul = nul_free→NoNul version_text refl

  path_version-NoNul : NoNul (path ++ (32 ∷ version_text))
  path_version-NoNul = NoNul-append path (32 ∷ version_text) no_nul (ground arith, version-NoNul)

  set_first : set buffer (start + 3) 0 ≡ once
  set_first =
      rw (sym (append_assoc pre (codes "GET") (32 ∷ (path ++ (32 ∷ (version_text ++ (0 ∷ rest)))))))
        (set-append (pre ++ codes "GET") _ 32 0 (start + 3) (sym (length-append pre (codes "GET")))
          ∙ append_assoc pre (codes "GET") _)

  whole : c_string buffer start ≡ some (codes "GET" ++ (32 ∷ (path ++ (32 ∷ version_text))))
  whole =
      c_string-at buffer pre (codes "GET" ++ (32 ∷ (path ++ (32 ∷ version_text)))) rest start
        (ap (λ (t : List ℕ). pre ++ (codes "GET" ++ (32 ∷ t)))
          (sym (append_assoc path (32 ∷ version_text) (0 ∷ rest))))
        refl
        (NoNul-append (codes "GET ") (path ++ (32 ∷ version_text))
          (nul_free→NoNul (codes "GET ") refl) path_version-NoNul)

  method : c_string once start ≡ some (codes "GET")
  method = c_string-at once pre (codes "GET") _ start refl refl (nul_free→NoNul (codes "GET") refl)

  -- the buffer up to the path
  abbrev pre_url : List ℕ
  pre_url = pre ++ (codes "GET" ++ (0 ∷ []))

  behind_method :
      (url : ℕ) → url ≡ start + 4 → c_string once url ≡ some (path ++ (32 ∷ version_text))
  behind_method url at =
      c_string-at once pre_url (path ++ (32 ∷ version_text)) rest url
        (sym (
          append_assoc pre (codes "GET" ++ (0 ∷ [])) _
          ∙ ap (λ (t : List ℕ). pre ++ (codes "GET" ++ (0 ∷ t)))
              (append_assoc path (32 ∷ version_text) (0 ∷ rest))))
        (at ∙ sym (length-append pre (codes "GET" ++ (0 ∷ [])))) path_version-NoNul

  -- the buffer up to the end of the path
  abbrev pre_version : List ℕ
  pre_version = pre ++ (codes "GET" ++ (0 ∷ path))

  pre_version-length : length pre_version ≡ start + 4 + length path
  pre_version-length = length-append pre (codes "GET" ++ (0 ∷ path)) ∙ omega arith

  split_version :
      (b : ℕ)
      → pre ++ (codes "GET" ++ (0 ∷ (path ++ (b ∷ (version_text ++ (0 ∷ rest))))))
        ≡ pre_version ++ (b ∷ (version_text ++ (0 ∷ rest)))
  split_version b = sym (append_assoc pre (codes "GET" ++ (0 ∷ path)) _)

  set_second : (q : ℕ) → q ≡ start + 4 + length path → set once q 0 ≡ twice
  set_second q at =
      rw (split_version 32)
        (set-append pre_version _ 32 0 q (at ∙ sym pre_version-length) ∙ sym (split_version 0))

  url_text : (url : ℕ) → url ≡ start + 4 → c_string twice url ≡ some path
  url_text url at =
      c_string-at twice pre_url path (version_text ++ (0 ∷ rest)) url
        (sym (append_assoc pre (codes "GET" ++ (0 ∷ [])) _))
        (at ∙ sym (length-append pre (codes "GET" ++ (0 ∷ [])))) no_nul

  version_at : (q : ℕ) → q ≡ start + 4 + length path + 1 → c_string twice q ≡ some version_text
  version_at q at =
      c_string-at twice (pre_version ++ (0 ∷ [])) version_text rest q
        (split_version 0 ∙ sym (append_assoc pre_version (0 ∷ []) _))
        (at
          ∙ ap (λ (x : ℕ). x + 1) (sym pre_version-length)
          ∙ sym (length-append pre_version (0 ∷ [])))
        version-NoNul

  slash : (url : ℕ) → url ≡ start + 4 → get_elem? twice url ≡ some b'/'
  slash url at =
      rw
        (sym
          (append_assoc pre (codes "GET" ++ (0 ∷ [])) (path ++ (0 ∷ (version_text ++ (0 ∷ rest))))))
        (get_elem?-append pre_url _ b'/' url
          (at ∙ sym (length-append pre (codes "GET" ++ (0 ∷ [])))))

  -- the connection behind the request line, with m_url and m_version
  abbrev parsed : (url version : ℕ) → HttpConn
  parsed url version = record c {
    read_buf = twice;
    url = some url;
    version = some version;
    method = get;
    check_state = header;
  }

  cut_method : c.read_buf ≡ buffer → set c.read_buf (start + 3) 0 ≡ once
  cut_method e = rw e set_first

  parse_request_line-steps :
      c.read_buf ≡ buffer
      → parse_request_line start c
        ≡ reply no_request (parsed (start + 3 + 1 + 0) (start + 3 + 1 + 0 + length path + 1 + 0))
  unfolding strpbrk strspn eq_nocase prefix_nocase
  parse_request_line-steps e =
      let url = start + 3 + 1 + 0 in
      let version = url + length path + 1 + 0 in
      let behind : List ℕ → HttpConn =
        λ b. record c { read_buf = b; url = some (start + 3 + 1); method = get } in
      parse_request_line-starts start 3 c (codes "GET" ++ (32 ∷ (path ++ (32 ∷ version_text))))
        (codes "GET") (path ++ (32 ∷ version_text)) (rw e whole) refl (rw (cut_method e) method)
        refl (rw (cut_method e) (behind_method (start + 3 + 1) (omega arith)))
      ∙ ap (λ b. check_version url (behind b)) (cut_method e)
      ∙ check_version-starts url (length path) (behind once) (path ++ (32 ∷ version_text))
          version_text version_text (behind_method url (omega arith))
          (strpbrk-append path version_text 32 no_blank refl)
          (rw (set_second (url + length path) (omega arith))
            (version_at (url + length path + 1) (omega arith)))
          (rw (set_second (url + length path) (omega arith)) (version_at version (omega arith)))
          refl
      ∙ ap (λ b. check_url url (record (behind b) { url = some url; version = some version }))
          (set_second (url + length path) (omega arith))
      ∙ check_url-starts url (record (behind twice) { url = some url; version = some version }) path
          (url_text url (omega arith)) refl (slash url (omega arith))

  -- A request line `GET path HTTP/1.1` at the start of a line of m_read_buf, whose path begins with
  -- a slash and holds neither a blank nor a 0, is accepted: the two blanks become 0, so that the
  -- method, the path and the version are C strings, m_url points to the path and m_version to the
  -- version, and the parser goes on to the headers.
  pub parse_request_line-path :
      c.read_buf ≡ pre ++ request_line path rest
      → parse_request_line start c
        ≡ reply no_request (record c {
          read_buf = pre ++ cut_line path rest;
          url = some (start + 4);
          version = some (start + 4 + length path + 1);
          method = get;
          check_state = header;
        })
  parse_request_line-path e =
      let url : start + 3 + 1 + 0 ≡ start + 4 = omega arith in
      let version : start + 3 + 1 + 0 + length path + 1 + 0 ≡ start + 4 + length path + 1 =
        omega arith in
      parse_request_line-steps e
      ∙ ap (λ x. reply no_request (parsed x (start + 3 + 1 + 0 + length path + 1 + 0))) url
      ∙ ap (λ x. reply no_request (parsed (start + 4) x)) version
