-- ===== src/Socket/Made.antt =====
-- What `GenericSocket::new` of src/utils/socket.rs gives.
use dtchat.Prelude.{◌≡◌, refl, ◌⊎◌, inl, inr, Bool, true, false, arith}
use dtchat.Endpoint.{Endpoint}
use dtchat.Socket.{Net, GenericSocket, SockAddr, Result, Error, ok, err, ◌>>=◌, opened, new_socket}

pub Result-cases {ℓ} :
    {A : Type ℓ} (r : Result A) → ((x : Error) × (r ≡ err x)) ⊎ ((a : A) × (r ≡ ok a))
Result-cases (err x) = inl (x, refl)
Result-cases (ok a) = inr (a, refl)

bind-ok {ℓ κ} :
    {A : Type ℓ} {B : Type κ} (r : Result A) (k : A → Result B) (b : B)
    → (r >>= k) ≡ ok b
    → (a : A) × (k a ≡ ok b)
bind-ok (ok a) k b h = (a, h)
bind-ok (err x) k b h = absurd (ground arith)

opened-fresh :
    (works : Bool) (e : Endpoint) (a : SockAddr) (s : GenericSocket)
    → opened works e a ≡ ok s
    → (s.listening ≡ false) × (s.eidpoint ≡ e) × (works ≡ true)
opened-fresh true e a s h = ground arith
opened-fresh false e a s h = cc

-- A new socket is for the endpoint, does not listen, and the system opened it.
pub new_socket-fresh :
    (net : Net) (e : Endpoint) (s : GenericSocket)
    → new_socket net e ≡ ok s
    → (s.listening ≡ false) × (s.eidpoint ≡ e) × (net.opens e ≡ true)
unfolding new_socket
new_socket-fresh net e s h =
    let (a, k) = bind-ok _ (λ a. opened (net.opens e) e a) s h in opened-fresh (net.opens e) e a s k
