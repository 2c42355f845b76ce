-- ===== src/FirstParser/Tests.antt =====
-- A request line, and the theorem on socket/http/http_readParse.cpp at it.
use unix_programming.Base.{◌≡◌, refl, some, [], ◌∷◌, ◌++◌, Gives}
use unix_programming.Base.Text.{codes, c_string, until_nul, strchr}
use unix_programming.HttpConn.Request.Line.{nul_free→NoNul}
use unix_programming.FirstParser.{
  requestline, no_request, bad_request, same_text, parse_version, parse_requestline,
}
use unix_programming.FirstParser.Accepts.{Decides, parse_requestline-Decides}

parse_requestline-Decides_example :
    Gives
      (Decides (codes "GET / HTTP") [] requestline)
      (parse_requestline (codes "GET / HTTP" ++ (0 ∷ [])) requestline)
parse_requestline-Decides_example =
    parse_requestline-Decides (codes "GET / HTTP") [] requestline
      (nul_free→NoNul (codes "GET / HTTP") refl)

accepts_root :
    Gives
      (λ res. (res.code ≡ no_request) × (c_string res.temp 4 ≡ some (codes "/")))
      (parse_requestline (codes "GET / HTTP/1.1" ++ (0 ∷ [])) requestline)
unfolding parse_requestline parse_version same_text c_string until_nul strchr
accepts_root = Gives.gives (refl, refl)

refuses_two_spaces :
    Gives
      (λ res. res.code ≡ bad_request)
      (parse_requestline (codes "GET  / HTTP/1.1" ++ (0 ∷ [])) requestline)
unfolding parse_requestline parse_version same_text c_string until_nul strchr
refuses_two_spaces = Gives.gives refl
