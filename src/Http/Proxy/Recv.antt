-- ===== src/Http/Proxy/Recv.antt =====
-- A client that closes its end before the request is complete.
use computer_network.Prelude.{
  ℕ, zero, suc, ◌+◌, ◌-◌, ◌≡◌, ◌<◌, refl, true, [], ◌∷◌, ◌++◌, none, some, arith, length, take,
  replicate, ltb,
}
use computer_network.Prelude.Result.{ok}
use computer_network.Prelude.Buffer.{patch}
use computer_network.Prelude.Text.{c_string, strstr}
use computer_network.Http.Request.{Bytes}
use computer_network.Http.Unparse.{crlf}
use computer_network.Http.Proxy.{recv_buffer_size, reading, read_request}

patch_nothing : (off : ℕ) (b : Bytes) → patch off [] b ≡ b
unfolding patch
patch_nothing off [] = refl
patch_nothing zero (b ∷ bs) = refl
patch_nothing (suc off) (b ∷ bs) = ground (arith, patch_nothing off bs)

take_nothing : (n : ℕ) → take {A = ℕ} n [] ≡ []
take_nothing zero = refl
take_nothing (suc n) = refl

-- Where the buffer has a NUL and no end of the headers before it, a client that closes its end
-- keeps the loop going: after any number of calls of recv that give nothing it has not ended.
pub read_request_hangs :
    (n : ℕ) (buffer : Bytes) (total : ℕ)
    → strstr (crlf ++ crlf) (c_string buffer) ≡ none
    → length (c_string buffer) < recv_buffer_size
    → read_request buffer total (replicate n (some [])) ≡ ok reading
unfolding read_request
read_request_hangs zero buffer total none_found ended = refl
read_request_hangs (suc n) buffer total none_found ended =
    let again = read_request_hangs n buffer total none_found ended in
    let same : total + 0 ≡ total = omega arith in
    let inside : ltb (length (c_string buffer)) recv_buffer_size ≡ true = ground arith in
    let none_got = take_nothing (recv_buffer_size - total) in
    let kept = patch_nothing total buffer in
    rw (read_request, none_got, kept, none_found, none_got, kept, inside, same) again
