-- ===== src/Router/Requests/Life.antt =====
-- An ARP request over several rounds: five broadcasts.
use mathlib.Core.List.{reverse, append_assoc}
use computer_network.Prelude.{
  ℕ, zero, suc, ◌+◌, ◌^◌, ◌≤◌, ◌<◌, ◌≡◌, refl, sym, ap, subst, ◌∙◌, List, [], ◌∷◌, ◌++◌, some,
  arith, All, length,
}
use computer_network.Prelude.Result.{Result, ok, ◌>>=◌}
use computer_network.Router.Instance.{Bytes, ArpRequest, Instance}
use computer_network.Router.Arp.{arp_request_frame, sr_send_arp_request}
use computer_network.Router.Arp.Broadcast.{
  IsUsable, IsWhoHas, requests_for, sr_send_arp_request_lem,
}
use computer_network.Router.Requests.{at_address, stamp, set_stamp, handle_arpreq}
use computer_network.Router.Requests.Retry.{handle_arpreq_retry, at_address_retry}

-- handle_arpreq at one time after another.
pub handle_at : Bytes → ℕ → ℕ → List ℕ → Instance → Result Instance
handle_at junk fuel a [] sr = ok sr
handle_at junk fuel a (t ∷ ts) sr =
    handle_arpreq junk t (suc fuel) sr a >>= λ sr'. handle_at junk fuel a ts sr'

-- More than a second lies between two of the times.
abbrev pub Spaced : ℕ → List ℕ → Type 0
Spaced last [] = Unit {0}
Spaced last (t ∷ ts) = (last + 1 < t) × Spaced t ts

abbrev pub last_time : ℕ → List ℕ → ℕ
last_time last [] = last
last_time last (t ∷ ts) = last_time t ts

-- n copies of a list, one after another.
abbrev pub repeated {ℓ} : {A : Type ℓ} → ℕ → List A → List A
repeated zero xs = []
repeated (suc n) xs = repeated n xs ++ xs

-- After broadcasts at the times `ts` for the request `r` at `a`.
pub record Asked (sr : Instance) (a : ℕ) (r : ArpRequest) (ts : List ℕ) (sr' : Instance)
    : Type 0 where
  pub same_interfaces : sr'.if_list ≡ sr.if_list
  pub frames : sr'.wire ≡ repeated (length ts) (reverse (requests_for r.ip sr.if_list)) ++ sr.wire
  pub who_has : All (λ i. IsWhoHas i r.ip (arp_request_frame i r.ip)) sr.if_list
  pub request : ArpRequest
  pub pending : at_address a sr'.cache.requests ≡ some request
  pub counted : request.times_sent ≡ r.times_sent + length ts
  pub stamped : request.sent ≡ last_time r.sent ts
  pub same_packets : request.packets ≡ r.packets

-- One retry: the interfaces stay, and the wire has one more frame for each.
module _ (sr : Instance) (t a ip : ℕ) (word : ip < 2 ^ 32)
    (usable : All (IsUsable sr.if_list) sr.if_list) where
  abbrev retried : Instance
  retried = set_stamp t a (sr_send_arp_request sr ip)

  if_list-retried : retried.if_list ≡ sr.if_list
  unfolding set_stamp
  if_list-retried = ap (λ s. s.if_list) (sr_send_arp_request_lem sr ip word usable).0

  wire-retried : retried.wire ≡ reverse (requests_for ip sr.if_list) ++ sr.wire
  unfolding set_stamp
  wire-retried = ap (λ s. s.wire) (sr_send_arp_request_lem sr ip word usable).0

  IsUsable-retried : All (IsUsable retried.if_list) retried.if_list
  IsUsable-retried = subst (λ is. All (IsUsable is) is) (sym if_list-retried) usable

-- Called at times more than a second apart, handle_arpreq broadcasts a request each time until it
-- has done so five times: every call sends a who-has for its address by each interface, and the
-- request keeps waiting with its packets.
pub handle_at-Asked :
    (junk : Bytes) (fuel a : ℕ) (ts : List ℕ) (sr : Instance) (r : ArpRequest)
    → at_address a sr.cache.requests ≡ some r
    → Spaced r.sent ts
    → r.times_sent + length ts ≤ 5
    → r.ip < 2 ^ 32
    → All (IsUsable sr.if_list) sr.if_list
    → (sr' : Instance) × (handle_at junk fuel a ts sr ≡ ok sr') × Asked sr a r ts sr'
unfolding handle_at
handle_at-Asked junk fuel a [] sr r there spaced few word usable = (
  sr,
  refl,
  record {
    same_interfaces = refl;
    frames = refl;
    who_has = (sr_send_arp_request_lem sr r.ip word usable).1;
    request = r;
    pending = there;
    counted = omega arith;
    stamped = refl;
    same_packets = refl;
  },
)
handle_at-Asked junk fuel a (t ∷ ts) sr r there spaced few word usable =
    let rest =
      handle_at-Asked junk fuel a ts (retried sr t a r.ip word usable) (stamp t r)
        (at_address_retry junk t fuel sr a r there) spaced.1 (omega arith) word
        (IsUsable-retried sr t a r.ip word usable) in
    let same = if_list-retried sr t a r.ip word usable in
    let again = retried sr t a r.ip word usable in
    let sent = reverse (requests_for r.ip sr.if_list) in
    (
      rest.0,
      rw (handle_arpreq_retry junk t fuel sr a r there spaced.0 (omega arith)) rest.1,
      record {
        same_interfaces = rest.2.same_interfaces ∙ same;
        frames =
            rest.2.frames
            ∙ ap (λ is. repeated (length ts) (reverse (requests_for r.ip is)) ++ again.wire) same
            ∙ ap (λ w. repeated (length ts) sent ++ w) (wire-retried sr t a r.ip word usable)
            ∙ sym (append_assoc (repeated (length ts) sent) sent sr.wire);
        who_has = (sr_send_arp_request_lem sr r.ip word usable).1;
        request = rest.2.request;
        pending = rest.2.pending;
        counted = omega (arith, rest.2.counted);
        stamped = rest.2.stamped;
        same_packets = rest.2.same_packets;
      },
    )
