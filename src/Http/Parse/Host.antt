-- ===== src/Http/Parse/Host.antt =====
-- The second half of parse_line: the path, and the host with or without a port.
use mathlib.Core.List.{append_assoc}
use computer_network.Prelude.{
  ℕ, suc, ◌+◌, ◌≡◌, ◌≢◌, refl, ◌∙◌, Bool, false, not, [], ◌∷◌, ◌++◌, none, some, arith, length,
  length-append, All, All-map,
}
use computer_network.Prelude.Text.{starts_with, is_delim}
use computer_network.Prelude.Text.Laws.{IsInside}
use computer_network.Prelude.Token.{Token, text_at, strtok_r}
use computer_network.Prelude.Token.Laws.{token_delim, token_nul, token_none, text_at_part}
use computer_network.Http.Attempt.{Attempt, done, present, require, ◌>>=◌, ◌>>◌}
use computer_network.Http.Request.{Bytes, RequestLine}
use computer_network.Http.Parse.{space, slash, colon, path_of, port_bad, text_of}

-- No NUL, space or carriage return.
abbrev pub IsPlain : ℕ → Type 0
IsPlain b = (b ≢ 0) × (b ≢ b' ') × (b ≢ b'\r')

abbrev pub IsWord : Bytes → Bytes → Type 0
IsWord delims = All (λ b. IsPlain b × (is_delim delims b ≡ false))

pub IsWord-IsInside : (delims s : Bytes) → IsWord delims s → IsInside delims s
IsWord-IsInside delims s w = All-map s (λ b k. (k.0.0, k.1)) w

pub IsWord-IsPlain : (delims s : Bytes) → IsWord delims s → All IsPlain s
IsWord-IsPlain delims s w = All-map s (λ b k. k.0) w

pub plain_no_nul : (s : Bytes) → All IsPlain s → All (λ b. b ≢ 0) s
plain_no_nul s w = All-map s (λ b k. k.0) w

-- What parse_line has left to do once the host is found.
abbrev pub second_half : (Bytes → Bool) → Bytes → ℕ → ℕ → ℕ → ℕ → Attempt RequestLine
second_half bad_port mem addr_at host_at path_at version_at = do
  let t5 = strtok_r space mem path_at
  path ← path_of t5
  let t6 = strtok_r colon t5.mem host_at
  let t7 = strtok_r slash t6.mem t6.save
  name ← present t6.found
  require (not (port_bad bad_port t7))
  done (record {
    method = text_at t7.mem 0;
    protocol = text_at t7.mem addr_at;
    host = text_at t7.mem name;
    port = text_of t7;
    path = path;
    version = text_at t7.mem version_at;
  })

path_token :
    (mem pre q rest : Bytes) (n : ℕ)
    → mem ≡ pre ++ (q ++ 0 ∷ rest)
    → n ≡ length pre
    → All IsPlain q
    → starts_with slash q ≡ false
    → (t : Token) × (strtok_r space mem n ≡ t) × (t.mem ≡ mem) × (path_of t ≡ done (b'/' ∷ q))
unfolding path_of is_delim
path_token mem pre [] rest n e at w s = (_, token_none space mem pre rest n e at refl, refl, refl)
path_token mem pre (c ∷ cs) rest n e at w s = (
  _,
  token_nul space mem [] pre [] c cs 0 rest n n (n + length (c ∷ cs)) e at (omega arith) refl tt
      (All-map (c ∷ cs) (λ b k. ground arith) w),
  refl,
  rw (text_at_part mem pre (c ∷ cs) rest n e at (All-map (c ∷ cs) (λ b k. k.0) w), s) refl,
)

module _ (bad_port : Bytes → Bool) (pre q rest : Bytes) (addr_at host_at path_at version_at : ℕ)
    (host_here : host_at ≡ length pre) (path : All IsPlain q)
    (single : starts_with slash q ≡ false) where
  pub second_half_no_port :
      (mem method protocol : Bytes) (h : ℕ) (hs version : Bytes)
      → mem ≡ pre ++ ((h ∷ hs) ++ 0 ∷ (q ++ 0 ∷ rest))
      → path_at ≡ host_at + length (h ∷ hs) + 1
      → IsWord (b'/' ∷ b':' ∷ []) (h ∷ hs)
      → text_at mem 0 ≡ method
      → text_at mem addr_at ≡ protocol
      → text_at mem version_at ≡ version
      → second_half bad_port mem addr_at host_at path_at version_at
        ≡ done (record {
          method = method;
          protocol = protocol;
          host = h ∷ hs;
          port = none;
          path = b'/' ∷ q;
          version = version;
        })
  unfolding is_delim
  second_half_no_port mem method protocol h hs version e path_here host e1 e2 e3 =
      let front = pre ++ ((h ∷ hs) ++ 0 ∷ []) in
      let (t5, found5, same5, path5) =
        path_token mem front q rest path_at (e ∙ simp append_assoc)
          (omega (arith, length-append pre ((h ∷ hs) ++ 0 ∷ []), length-append (h ∷ hs) (0 ∷ [])))
          path single in
      let found6 =
        token_nul colon mem [] pre [] h hs 0 (q ++ 0 ∷ rest) host_at host_at
          (host_at + length (h ∷ hs)) e host_here (omega arith) refl tt
          (All-map (h ∷ hs) (λ b k. ground arith) host) in
      let found7 =
        token_none slash mem (pre ++ (h ∷ hs)) (q ++ 0 ∷ rest) (host_at + length (h ∷ hs))
          (e ∙ simp append_assoc) (omega (arith, length-append pre (h ∷ hs))) refl in
      let name =
        text_at_part mem pre (h ∷ hs) (q ++ 0 ∷ rest) host_at e host_here
          (plain_no_nul (h ∷ hs) (IsWord-IsPlain (b'/' ∷ b':' ∷ []) (h ∷ hs) host)) in
      rw (found5, path5, same5, found6, found7, e1, e2, e3, name) refl

  pub second_half_port :
      (mem mem' method protocol : Bytes) (h : ℕ) (hs : Bytes) (r : ℕ) (rs version : Bytes)
      → mem ≡ pre ++ ((h ∷ hs) ++ b':' ∷ ((r ∷ rs) ++ 0 ∷ (q ++ 0 ∷ rest)))
      → mem' ≡ pre ++ ((h ∷ hs) ++ 0 ∷ ((r ∷ rs) ++ 0 ∷ (q ++ 0 ∷ rest)))
      → path_at ≡ host_at + length ((h ∷ hs) ++ b':' ∷ (r ∷ rs)) + 1
      → IsWord (b'/' ∷ b':' ∷ []) (h ∷ hs)
      → IsWord slash (r ∷ rs)
      → bad_port (r ∷ rs) ≡ false
      → text_at mem' 0 ≡ method
      → text_at mem' addr_at ≡ protocol
      → text_at mem' version_at ≡ version
      → second_half bad_port mem addr_at host_at path_at version_at
        ≡ done (record {
          method = method;
          protocol = protocol;
          host = h ∷ hs;
          port = some (r ∷ rs);
          path = b'/' ∷ q;
          version = version;
        })
  unfolding is_delim
  second_half_port mem mem' method protocol h hs r rs version e e' path_here host port good e1 e2
        e3 =
      let front = pre ++ ((h ∷ hs) ++ b':' ∷ ((r ∷ rs) ++ 0 ∷ [])) in
      let port_at = suc (host_at + length (h ∷ hs)) in
      let (t5, found5, same5, path5) =
        path_token mem front q rest path_at (e ∙ simp append_assoc)
          (omega (
            arith,
            length-append pre ((h ∷ hs) ++ b':' ∷ ((r ∷ rs) ++ 0 ∷ [])),
            length-append hs (b':' ∷ ((r ∷ rs) ++ 0 ∷ [])),
            length-append hs (b':' ∷ (r ∷ rs)),
            length-append rs (0 ∷ []),
          ))
          path single in
      let found6 =
        token_delim colon mem mem' pre [] h hs b':' ((r ∷ rs) ++ 0 ∷ (q ++ 0 ∷ rest)) host_at
          host_at port_at e e' host_here (omega arith) refl tt
          (All-map (h ∷ hs) (λ b k. ground arith) host) (omega arith) refl in
      let behind : mem' ≡ (pre ++ ((h ∷ hs) ++ 0 ∷ [])) ++ ((r ∷ rs) ++ 0 ∷ (q ++ 0 ∷ rest)) =
        e' ∙ simp append_assoc in
      let port_here : port_at ≡ length (pre ++ ((h ∷ hs) ++ 0 ∷ [])) =
        omega (arith, length-append pre ((h ∷ hs) ++ 0 ∷ []), length-append (h ∷ hs) (0 ∷ [])) in
      let found7 =
        token_nul slash mem' [] (pre ++ ((h ∷ hs) ++ 0 ∷ [])) [] r rs 0 (q ++ 0 ∷ rest) port_at
          port_at _ behind port_here (omega arith) refl tt (IsWord-IsInside slash (r ∷ rs) port) in
      let name =
        text_at_part mem' pre (h ∷ hs) _ host_at e' host_here
          (plain_no_nul (h ∷ hs) (IsWord-IsPlain (b'/' ∷ b':' ∷ []) (h ∷ hs) host)) in
      let port_text =
        text_at_part mem' (pre ++ ((h ∷ hs) ++ 0 ∷ [])) (r ∷ rs) _ port_at behind port_here
          (plain_no_nul (r ∷ rs) (IsWord-IsPlain slash (r ∷ rs) port)) in
      rw (found5, path5, same5, found6, found7, port_text, good, e1, e2, e3, name) refl
