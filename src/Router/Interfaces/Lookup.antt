-- ===== src/Router/Interfaces/Lookup.antt =====
-- What the searches of sr_if.c find, and how its set-up calls change the last interface.
use computer_network.Prelude.{
  ℕ, ◌≡◌, refl, ◌≢◌, List, [], ◌∷◌, ◌++◌, inl, inr, ap, none, some, arith, All, ◌==◌, Bool-cases,
}
use computer_network.Prelude.Result.{ok}
use computer_network.Router.Instance.{Interface, Instance}
use computer_network.Router.Interfaces.{find_ip, change_last, set_last}

-- Where the first interface with an address stands: none before it has the address.
pub record IsFirst (ip : ℕ) (is : List Interface) (i : Interface) : Type 0 where
  pub before : List Interface
  pub after : List Interface
  pub splits : is ≡ before ++ i ∷ after
  pub others : All (λ j. j.ip ≢ ip) before
  pub hit : i.ip ≡ ip

-- The interface found for an IP is the first of the list that has it.
pub find_ip-IsFirst :
    (ip : ℕ) (is : List Interface) (i : Interface) → find_ip ip is ≡ some i → IsFirst ip is i
unfolding find_ip
find_ip-IsFirst ip [] i h = cc
find_ip-IsFirst ip (j ∷ js) i h = elim (Bool-cases (ip == j.ip)) [
  | inl e ↦ record {
    before = [];
    after = js;
    splits = ground arith;
    others = tt;
    hit = ground arith;
  }
  | inr e ↦
      let rest = find_ip-IsFirst ip js i (ground arith) in
      record {
        before = j ∷ rest.before;
        after = rest.after;
        splits = ap (◌∷◌ j) rest.splits;
        others = (ground arith, rest.others);
        hit = rest.hit;
      }
]

pub find_ip-none : (ip : ℕ) (is : List Interface) → find_ip ip is ≡ none → All (λ j. j.ip ≢ ip) is
unfolding find_ip
find_ip-none ip [] h = tt
find_ip-none ip (j ∷ js) h = ground (arith, find_ip-none ip js)

change_last-append :
    (f : Interface → Interface) (is : List Interface) (i : Interface)
    → change_last f (is ++ i ∷ []) ≡ some (is ++ f i ∷ [])
unfolding change_last
change_last-append f [] i = refl
change_last-append f (j ∷ []) i = refl
change_last-append f (j ∷ k ∷ is) i = rw (change_last-append f (k ∷ is) i)

pub set_last_lem :
    (f : Interface → Interface) (sr : Instance) (is : List Interface) (i : Interface)
    → sr.if_list ≡ is ++ i ∷ []
    → set_last f sr ≡ ok (record sr { if_list = is ++ f i ∷ [] })
unfolding set_last
set_last_lem f sr is i e = ground (arith, change_last-append f is i)
