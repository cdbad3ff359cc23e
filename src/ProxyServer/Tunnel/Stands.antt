-- ===== src/ProxyServer/Tunnel/Stands.antt =====
-- Calls that leave a raw message alone keep it where it stands.
use proxi.Base.{
  ℕ, zero, suc, ◌≡◌, ◌≢◌, refl, ap, List, [], ◌∷◌, ◌++◌, some, Outcome, ok, fault, Returns,
  get_elem?,
}
use proxi.ProxyServer.Kept.Calls.{Keeps}
use proxi.ProxyServer.Transfers.{put_message}
use proxi.RawMessage.{RawMessage}
use proxi.SimpleCache.{SimpleCache}
use proxi.Text.{Bytes}

-- The message `i` stands in the list.
abbrev pub Stands : ℕ → RawMessage → SimpleCache Bytes (List Bytes) → List RawMessage → Type 0
Stands i m c r = get_elem? r i ≡ some m

append-Stands :
    (i : ℕ) (m : RawMessage) (r l : List RawMessage)
    → get_elem? r i ≡ some m
    → get_elem? (r ++ l) i ≡ some m
append-Stands i m [] l e = cc
append-Stands zero m (a ∷ r) l e = e
append-Stands (suc i) m (a ∷ r) l e = append-Stands i m r l e

put-Stands :
    (i j : ℕ) (m m' : RawMessage) (r : List RawMessage)
    → j ≢ i
    → get_elem? r i ≡ some m
    → get_elem? (put_message j m' r) i ≡ some m
unfolding put_message
put-Stands i j m m' [] d e = e
put-Stands zero zero m m' (a ∷ r) d e = absurd (d refl)
put-Stands zero (suc j) m m' (a ∷ r) d e = e
put-Stands (suc i) zero m m' (a ∷ r) d e = e
put-Stands (suc i) (suc j) m m' (a ∷ r) d e = put-Stands i j m m' r (λ q. d (ap suc q)) e

keeps_any :
    (i : ℕ) (m : RawMessage) (r : List RawMessage) {A : Type 0} (o : Outcome A)
    → get_elem? r i ≡ some m
    → Returns (λ a. get_elem? r i ≡ some m) o
keeps_any i m r (ok a) e = e
keeps_any i m r (fault x) e = tt

pub Stands-Keeps : (i : ℕ) (m : RawMessage) → Keeps (Stands i m) (λ j. j ≢ i)
Stands-Keeps i m = record {
  insert_keeps = λ c r k page may. keeps_any i m r _;
  erase_keeps = λ c r k. keeps_any i m r _;
  append_keeps = λ c r l. append-Stands i m r l;
  put_keeps = λ c r j m'. put-Stands i j m m' r;
}
