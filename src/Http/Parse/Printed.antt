-- ===== src/Http/Parse/Printed.antt =====
-- A printed request line, parsed.
use mathlib.Core.List.{append_assoc}
use computer_network.Prelude.{
  ℕ, ◌≡◌, ◌≢◌, refl, ◌∙◌, Bool, true, false, [], ◌∷◌, ◌++◌, Option, none, some, arith, length,
  length-append, All, All-map, All-append,
}
use computer_network.Prelude.Text.{starts_with, is_delim}
use computer_network.Prelude.Token.{text_at}
use computer_network.Prelude.Token.Laws.{text_at_part}
use computer_network.Http.Attempt.{done}
use computer_network.Http.Request.{Bytes, RequestLine}
use computer_network.Http.Unparse.{scheme_end, print_address}
use computer_network.Http.Parse.{slash, http_version, parse_line}
use computer_network.Http.Parse.Host.{
  IsPlain, IsWord, IsWord-IsPlain, plain_no_nul, second_half_no_port, second_half_port,
}
use computer_network.Http.Parse.Line.{
  buffer, addr_at, host_at, path_at, version_at, line_text, parse_line-second_half,
}

abbrev pub IsToken : Bytes → Bytes → Type 0
IsToken delims s = (s ≢ []) × IsWord delims s

abbrev pub host_end : Bytes
host_end = b'/' ∷ b':' ∷ []

abbrev pub IsPort : (Bytes → Bool) → Option Bytes → Type 0
IsPort bad_port none = Unit {0}
IsPort bad_port (some p) = IsToken slash p × (bad_port p ≡ false)

-- One slash, and not a second one behind it.
abbrev pub IsPath : Bytes → Type 0
IsPath path =
    (rest : Bytes) × (path ≡ b'/' ∷ rest) × All IsPlain rest × (starts_with slash rest ≡ false)

-- The request lines that can be told apart again once they are printed.
pub record IsPrintable (bad_port : Bytes → Bool) (l : RequestLine) : Type 0 where
  pub method : IsToken [] l.method
  pub protocol : IsToken scheme_end l.protocol
  pub host : IsToken host_end l.host
  pub port : IsPort bad_port l.port
  pub path : IsPath l.path
  pub http : starts_with http_version l.version ≡ true
  pub version : All (λ b. (b ≢ 0) × (b ≢ b'\r')) l.version

-- The three other texts of the line, whatever the host has become.
module _ (m : ℕ) (ms : Bytes) (p : ℕ) (ps : Bytes) (h : ℕ) (hs q v : Bytes) where
  abbrev cut : Bytes
  cut = buffer m ms p ps h hs q v 0 0 0 0

  method_cut : All IsPlain (m ∷ ms) → text_at cut 0 ≡ m ∷ ms
  method_cut w = text_at_part cut [] (m ∷ ms) _ 0 refl refl (plain_no_nul (m ∷ ms) w)

  protocol_cut : All IsPlain (p ∷ ps) → text_at cut (addr_at m ms p ps h hs q v) ≡ p ∷ ps
  protocol_cut w =
      text_at_part cut ((m ∷ ms) ++ 0 ∷ []) (p ∷ ps)
        (b'/' ∷ b'/' ∷ ((h ∷ hs) ++ 0 ∷ (q ++ 0 ∷ (v ++ 0 ∷ [])))) _ (simp append_assoc)
        (omega (arith, length-append (m ∷ ms) (0 ∷ []))) (plain_no_nul (p ∷ ps) w)

  abbrev host_front : Bytes
  host_front = (m ∷ ms) ++ 0 ∷ ((p ∷ ps) ++ 0 ∷ b'/' ∷ b'/' ∷ [])

  length-host_front : host_at m ms p ps h hs q v ≡ length host_front
  length-host_front = omega (
    arith,
    length-append (m ∷ ms) (0 ∷ ((p ∷ ps) ++ 0 ∷ b'/' ∷ b'/' ∷ [])),
    length-append ps (0 ∷ b'/' ∷ b'/' ∷ []),
  )

  abbrev version_front : Bytes
  version_front = host_front ++ ((h ∷ hs) ++ 0 ∷ (q ++ 0 ∷ []))

  version_cut : All (λ b. b ≢ 0) v → text_at cut (version_at m ms p ps h hs q v) ≡ v
  version_cut w =
      text_at_part cut version_front v [] _ (simp append_assoc)
        (omega (
          arith,
          length-host_front,
          length-append host_front ((h ∷ hs) ++ 0 ∷ (q ++ 0 ∷ [])),
          length-append hs (0 ∷ (q ++ 0 ∷ [])),
          length-append q (0 ∷ []),
        ))
        w

-- A line, without the CRLF that ends it.
abbrev pub line_of : RequestLine → Bytes
line_of l = l.method ++ (b' ' ∷ (print_address l ++ (b' ' ∷ l.version)))

module _ (bad_port : Bytes → Bool) (m : ℕ) (ms : Bytes) (p : ℕ) (ps : Bytes) (h : ℕ)
    (hs q v : Bytes) (method : IsWord [] (m ∷ ms)) (protocol : IsWord scheme_end (p ∷ ps))
    (host : IsWord host_end (h ∷ hs)) (path : All IsPlain q) (single : starts_with slash q ≡ false)
    (http : starts_with http_version v ≡ true) (version : All (λ b. (b ≢ 0) × (b ≢ b'\r')) v) where
  abbrev line : Option Bytes → RequestLine
  line port = record {
    method = m ∷ ms;
    protocol = p ∷ ps;
    host = h ∷ hs;
    port = port;
    path = b'/' ∷ q;
    version = v;
  }

  version_no_nul : All (λ b. b ≢ 0) v
  version_no_nul = All-map v (λ b k. k.0) version

  host_slash : IsWord slash (h ∷ hs)
  unfolding is_delim
  host_slash = All-map (h ∷ hs) (λ b k. (k.0, ground arith)) host

  line_no_port : parse_line bad_port (line_of (line none)) ≡ done (line none)
  unfolding print_address
  line_no_port =
      let text : line_of (line none) ≡ line_text m ms p ps h hs q v = simp append_assoc in
      rw text (
        parse_line-second_half m ms p ps h hs q v (IsWord-IsPlain [] (m ∷ ms) method) protocol
          host_slash path bad_port version_no_nul http
        ∙ second_half_no_port bad_port (host_front m ms p ps h hs q v) q (v ++ 0 ∷ [])
            (addr_at m ms p ps h hs q v) (host_at m ms p ps h hs q v) (path_at m ms p ps h hs q v)
            (version_at m ms p ps h hs q v) (length-host_front m ms p ps h hs q v) path single
            (cut m ms p ps h hs q v) (m ∷ ms) (p ∷ ps) h hs v (simp append_assoc) refl host
            (method_cut m ms p ps h hs q v (IsWord-IsPlain [] (m ∷ ms) method))
            (protocol_cut m ms p ps h hs q v (IsWord-IsPlain scheme_end (p ∷ ps) protocol))
            (version_cut m ms p ps h hs q v version_no_nul))

  with_port :
      (r : ℕ) (rs : Bytes) → IsWord slash (r ∷ rs) → IsWord slash ((h ∷ hs) ++ b':' ∷ r ∷ rs)
  unfolding is_delim
  with_port r rs port =
      All-append (λ b. IsPlain b × (is_delim slash b ≡ false)) (h ∷ hs) (b':' ∷ r ∷ rs) host_slash
        ((omega arith, refl), port)

  line_port :
      (r : ℕ) (rs : Bytes)
      → IsWord slash (r ∷ rs)
      → bad_port (r ∷ rs) ≡ false
      → parse_line bad_port (line_of (line (some (r ∷ rs)))) ≡ done (line (some (r ∷ rs)))
  unfolding print_address
  line_port r rs port good =
      let hs1 : ℕ → Bytes = λ x. hs ++ x ∷ r ∷ rs in
      let same_at : version_at m ms p ps h (hs1 b':') q v ≡ version_at m ms p ps h (hs1 0) q v =
        omega (arith, length-append hs (b':' ∷ r ∷ rs), length-append hs (0 ∷ r ∷ rs)) in
      let text : line_of (line (some (r ∷ rs))) ≡ line_text m ms p ps h (hs1 b':') q v =
        simp append_assoc in
      rw text (
        parse_line-second_half m ms p ps h (hs1 b':') q v (IsWord-IsPlain [] (m ∷ ms) method)
          protocol (with_port r rs port) path bad_port version_no_nul http
        ∙ second_half_port bad_port (host_front m ms p ps h hs q v) q (v ++ 0 ∷ [])
            (addr_at m ms p ps h (hs1 b':') q v) (host_at m ms p ps h (hs1 b':') q v)
            (path_at m ms p ps h (hs1 b':') q v) (version_at m ms p ps h (hs1 b':') q v)
            (length-host_front m ms p ps h hs q v) path single (cut m ms p ps h (hs1 b':') q v)
            (cut m ms p ps h (hs1 0) q v) (m ∷ ms) (p ∷ ps) h hs r rs v (simp append_assoc)
            (simp append_assoc) refl host port good
            (method_cut m ms p ps h (hs1 0) q v (IsWord-IsPlain [] (m ∷ ms) method))
            (protocol_cut m ms p ps h (hs1 0) q v (IsWord-IsPlain scheme_end (p ∷ ps) protocol))
            (rw same_at (version_cut m ms p ps h (hs1 0) q v version_no_nul)))

parse_parts :
    (bad_port : Bytes → Bool) (m p h : Bytes) (port : Option Bytes) (path v : Bytes)
    → IsToken [] m
    → IsToken scheme_end p
    → IsToken host_end h
    → IsPort bad_port port
    → IsPath path
    → starts_with http_version v ≡ true
    → All (λ b. (b ≢ 0) × (b ≢ b'\r')) v
    → (l : RequestLine)
    → l ≡ record { method = m; protocol = p; host = h; port = port; path = path; version = v }
    → parse_line bad_port (line_of l) ≡ done l
parse_parts bad_port [] p h port path v w1 w2 w3 w4 w5 w6 w7 l e = absurd (w1.0 refl)
parse_parts bad_port (m ∷ ms) [] h port path v w1 w2 w3 w4 w5 w6 w7 l e = absurd (w2.0 refl)
parse_parts bad_port (m ∷ ms) (p ∷ ps) [] port path v w1 w2 w3 w4 w5 w6 w7 l e = absurd (w3.0 refl)
parse_parts bad_port (m ∷ ms) (p ∷ ps) (h ∷ hs) (some []) path v w1 w2 w3 w4 w5 w6 w7 l e =
    absurd (w4.0.0 refl)
parse_parts bad_port (m ∷ ms) (p ∷ ps) (h ∷ hs) none path v w1 w2 w3 w4 (q, at, plain, single) w6 w7
      l e =
    rw (e, at) (line_no_port bad_port m ms p ps h hs q v w1.1 w2.1 w3.1 plain single w6 w7)
parse_parts bad_port (m ∷ ms) (p ∷ ps) (h ∷ hs) (some (r ∷ rs)) path v w1 w2 w3 w4
      (q, at, plain, single) w6 w7 l e =
    rw (e, at)
      (line_port bad_port m ms p ps h hs q v w1.1 w2.1 w3.1 plain single w6 w7 r rs w4.0.1 w4.1)

-- A printable request line that is printed, with or without a port, is parsed into the method, the
-- protocol, the host, the port, the path and the version that were printed.
pub parse_line-print_line :
    (bad_port : Bytes → Bool) (l : RequestLine)
    → IsPrintable bad_port l
    → parse_line bad_port (line_of l) ≡ done l
parse_line-print_line bad_port l w =
    parse_parts bad_port l.method l.protocol l.host l.port l.path l.version w.method w.protocol
      w.host w.port w.path w.http w.version l refl
