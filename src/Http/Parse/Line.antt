-- ===== src/Http/Parse/Line.antt =====
-- A printed request line is parsed into what was printed.
use mathlib.Core.List.{append_assoc}
use computer_network.Prelude.{
  ℕ, ◌+◌, ◌≡◌, ◌≢◌, refl, Bool, true, false, [], ◌∷◌, ◌++◌, some, arith, length, length-append, All,
  All-map, All-append, ltb, ◌==◌,
}
use computer_network.Prelude.Text.{starts_with, is_delim}
use computer_network.Prelude.Text.Laws.{IsInside}
use computer_network.Prelude.Token.{text_at, strtok_r}
use computer_network.Prelude.Token.Laws.{token_delim, text_at_part}
use computer_network.Http.Request.{Bytes}
use computer_network.Http.Unparse.{scheme_end}
use computer_network.Http.Parse.Host.{
  IsPlain, IsWord, IsWord-IsInside, IsWord-IsPlain, plain_no_nul, second_half,
}
use computer_network.Http.Parse.{space, slash, http_version, parse_line}

-- A request line of five non-empty parts in the buffer of the parser, with the bytes that stand
-- between them: the method, the protocol, the host with its port, the path behind its slash and
-- the version.
module _ (m : ℕ) (ms : Bytes) (p : ℕ) (ps : Bytes) (h : ℕ) (hs q v : Bytes) where
  abbrev pub buffer : ℕ → ℕ → ℕ → ℕ → Bytes
  buffer x1 x2 x3 x4 =
      (m ∷ ms)
      ++ (x1 ∷ ((p ∷ ps) ++ (x2 ∷ b'/' ∷ b'/' ∷ ((h ∷ hs) ++ (x3 ∷ (q ++ (x4 ∷ (v ++ 0 ∷ []))))))))

  abbrev pub addr_at : ℕ
  addr_at = length (m ∷ ms) + 1

  abbrev pub host_at : ℕ
  host_at = addr_at + length (p ∷ ps) + 3

  abbrev pub path_at : ℕ
  path_at = host_at + length (h ∷ hs) + 1

  abbrev pub version_at : ℕ
  version_at = path_at + length q + 1

  abbrev pub first_part : Bytes
  first_part = (m ∷ ms) ++ 0 ∷ []

  abbrev after_host : Bytes
  after_host = q ++ 0 ∷ (v ++ 0 ∷ [])

  abbrev after_protocol : ℕ → Bytes
  after_protocol x3 = b'/' ∷ b'/' ∷ ((h ∷ hs) ++ (x3 ∷ after_host))

  abbrev addr_part : Bytes
  addr_part = (p ∷ ps) ++ (b':' ∷ b'/' ∷ b'/' ∷ ((h ∷ hs) ++ (b'/' ∷ q)))

  abbrev pub line_text : Bytes
  line_text = (m ∷ ms) ++ (b' ' ∷ (addr_part ++ (b' ' ∷ v)))

  module _ (method : All IsPlain (m ∷ ms)) (protocol : IsWord scheme_end (p ∷ ps))
      (host : IsWord slash (h ∷ hs)) (path : All IsPlain q) where
    IsInside-space : (s : Bytes) → All IsPlain s → IsInside space s
    unfolding is_delim
    IsInside-space s w = All-map s (λ b k. ground arith) w

    addr-IsPlain : All IsPlain addr_part
    addr-IsPlain = All-append IsPlain (p ∷ ps) _ (IsWord-IsPlain scheme_end (p ∷ ps) protocol) (
      omega arith,
      (
        omega arith,
        (
          omega arith,
          All-append IsPlain (h ∷ hs) _ (IsWord-IsPlain slash (h ∷ hs) host) (omega arith, path),
        ),
      ),
    )

    method_token :
        strtok_r space (buffer b' ' b':' b'/' b' ') 0
        ≡ record { found = some 0; mem = buffer 0 b':' b'/' b' '; save = addr_at }
    unfolding is_delim
    method_token =
        token_delim space _ _ [] [] m ms b' ' _ 0 0 addr_at refl refl refl refl (omega arith) tt
          (IsInside-space (m ∷ ms) method) (omega arith) refl

    addr_token :
        strtok_r space (buffer 0 b':' b'/' b' ') addr_at
        ≡ record { found = some addr_at; mem = buffer 0 b':' b'/' 0; save = version_at }
    unfolding is_delim
    addr_token =
        token_delim space _ _ first_part [] p
          (ps ++ (b':' ∷ b'/' ∷ b'/' ∷ ((h ∷ hs) ++ (b'/' ∷ q)))) b' ' (v ++ 0 ∷ []) addr_at addr_at
          version_at (simp append_assoc) (simp append_assoc)
          (omega (arith, length-append (m ∷ ms) (0 ∷ []))) (omega arith)
          (omega (
            arith,
            length-append ps (b':' ∷ b'/' ∷ b'/' ∷ ((h ∷ hs) ++ (b'/' ∷ q))),
            length-append hs (b'/' ∷ q),
          ))
          tt (IsInside-space addr_part addr-IsPlain) (omega arith) refl

    length-first_part : addr_at ≡ length first_part
    length-first_part = omega (arith, length-append (m ∷ ms) (0 ∷ []))

    abbrev host_part : Bytes
    host_part = first_part ++ ((p ∷ ps) ++ 0 ∷ [])

    length-host_part : addr_at + length (p ∷ ps) + 1 ≡ length host_part
    length-host_part = omega (
      arith,
      length-first_part,
      length-append first_part ((p ∷ ps) ++ 0 ∷ []),
      length-append (p ∷ ps) (0 ∷ []),
    )

    abbrev path_part : Bytes
    path_part = host_part ++ (b'/' ∷ b'/' ∷ ((h ∷ hs) ++ 0 ∷ []))

    length-path_part : path_at ≡ length path_part
    length-path_part = omega (
      arith,
      length-host_part,
      length-append host_part (b'/' ∷ b'/' ∷ ((h ∷ hs) ++ 0 ∷ [])),
      length-append (h ∷ hs) (0 ∷ []),
    )

    protocol_token : strtok_r scheme_end (buffer 0 b':' b'/' 0) addr_at ≡ record {
      found = some addr_at;
      mem = buffer 0 0 b'/' 0;
      save = addr_at + length (p ∷ ps) + 1;
    }
    unfolding is_delim
    protocol_token =
        token_delim scheme_end _ _ first_part [] p ps b':' (after_protocol b'/') addr_at addr_at _
          (simp append_assoc) (simp append_assoc) length-first_part (omega arith) (omega arith) tt
          (IsWord-IsInside scheme_end (p ∷ ps) protocol) (omega arith) refl

    host_token :
        strtok_r slash (buffer 0 0 b'/' 0) (addr_at + length (p ∷ ps) + 1)
        ≡ record { found = some host_at; mem = buffer 0 0 0 0; save = path_at }
    unfolding is_delim
    host_token =
        token_delim slash _ _ host_part (b'/' ∷ b'/' ∷ []) h hs b'/' after_host _ host_at path_at
          (simp append_assoc) (simp append_assoc) length-host_part (omega arith) (omega arith)
          (refl, (refl, tt)) (IsWord-IsInside slash (h ∷ hs) host) (omega arith) refl

    address_text : text_at (buffer 0 b':' b'/' 0) addr_at ≡ addr_part
    address_text =
        text_at_part _ first_part addr_part (v ++ 0 ∷ []) addr_at (simp append_assoc)
          length-first_part (plain_no_nul addr_part addr-IsPlain)

    protocol_text : (x3 : ℕ) → text_at (buffer 0 0 x3 0) addr_at ≡ p ∷ ps
    protocol_text x3 =
        text_at_part _ first_part (p ∷ ps) (after_protocol x3) addr_at (simp append_assoc)
          length-first_part (plain_no_nul (p ∷ ps) (IsWord-IsPlain scheme_end (p ∷ ps) protocol))

    method_text : (x2 x3 : ℕ) → text_at (buffer 0 x2 x3 0) 0 ≡ m ∷ ms
    method_text x2 x3 = text_at_part _ [] (m ∷ ms) _ 0 refl refl (plain_no_nul (m ∷ ms) method)

    rem_text : text_at (buffer 0 0 b'/' 0) host_at ≡ (h ∷ hs) ++ (b'/' ∷ q)
    rem_text =
        text_at_part _ (host_part ++ (b'/' ∷ b'/' ∷ [])) ((h ∷ hs) ++ (b'/' ∷ q)) (v ++ 0 ∷ [])
          host_at (simp append_assoc)
          (omega (arith, length-host_part, length-append host_part (b'/' ∷ b'/' ∷ [])))
          (plain_no_nul ((h ∷ hs) ++ (b'/' ∷ q)) (
            All-append IsPlain (h ∷ hs) _ (IsWord-IsPlain slash (h ∷ hs) host) (omega arith, path)))

    host_text : text_at (buffer 0 0 0 0) host_at ≡ h ∷ hs
    host_text =
        text_at_part _ (host_part ++ (b'/' ∷ b'/' ∷ [])) (h ∷ hs) after_host host_at
          (simp append_assoc)
          (omega (arith, length-host_part, length-append host_part (b'/' ∷ b'/' ∷ [])))
          (plain_no_nul (h ∷ hs) (IsWord-IsPlain slash (h ∷ hs) host))

    length-addr_part : addr_at + length addr_part + 1 ≡ version_at
    length-addr_part = omega (
      arith,
      length-append (p ∷ ps) (b':' ∷ b'/' ∷ b'/' ∷ ((h ∷ hs) ++ (b'/' ∷ q))),
      length-append (h ∷ hs) (b'/' ∷ q),
    )

    version_text : All (λ b. b ≢ 0) v → text_at (buffer 0 b':' b'/' 0) version_at ≡ v
    version_text w =
        text_at_part _ (first_part ++ (addr_part ++ 0 ∷ [])) v [] version_at (simp append_assoc)
          (omega (
            arith,
            length-addr_part,
            length-first_part,
            length-append first_part (addr_part ++ 0 ∷ []),
            length-append addr_part (0 ∷ []),
          ))
          w

    length-buffer : (x2 x3 : ℕ) → length (buffer 0 x2 x3 0) ≡ version_at + length v + 1
    length-buffer x2 x3 = omega (
      arith,
      length-append ms (0 ∷ ((p ∷ ps) ++ (x2 ∷ b'/' ∷ b'/' ∷ ((h ∷ hs) ++ (x3 ∷ after_host))))),
      length-append ps (x2 ∷ b'/' ∷ b'/' ∷ ((h ∷ hs) ++ (x3 ∷ after_host))),
      length-append hs (x3 ∷ after_host),
      length-append q (0 ∷ (v ++ 0 ∷ [])),
      length-append v (0 ∷ []),
    )

    pub parse_line-second_half :
        (bad_port : Bytes → Bool)
        → All (λ b. b ≢ 0) v
        → starts_with http_version v ≡ true
        → parse_line bad_port line_text
          ≡ second_half bad_port (buffer 0 0 0 0) addr_at host_at path_at version_at
    unfolding parse_line
    parse_line-second_half bad_port no_nul_v http =
        let text : line_text ++ 0 ∷ [] ≡ buffer b' ' b':' b'/' b' ' = simp append_assoc in
        let differ : (length (h ∷ hs) == length ((h ∷ hs) ++ (b'/' ∷ q))) ≡ false =
          ground (arith, length-append (h ∷ hs) (b'/' ∷ q)) in
        let fits : ltb version_at (length (buffer 0 b':' b'/' 0)) ≡ true =
          ground (arith, length-buffer b':' b'/') in
        let inside : ltb host_at (length (buffer 0 0 b'/' 0)) ≡ true =
          ground (arith, length-buffer 0 b'/') in
        rw
          (
            text,
            method_token,
            addr_token,
            address_text,
            length-addr_part,
            fits,
            version_text no_nul_v,
            http,
            protocol_token,
            protocol_text b'/',
            inside,
            host_token,
            host_text,
            rem_text,
            differ,
          )
          refl
