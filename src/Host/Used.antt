-- ===== src/Host/Used.antt =====
-- A stream that was handed out, as its user calls its methods between opening and closing it.
use newtua_py.Base.{ℕ, ◌+◌, ◌≡◌, refl, ap, arith, Option, none, some, get_elem?, set}
use newtua_py.Stream.Kept.{StreamCall, after_call, after_call-Alike}
use newtua_py.Host.{Host, Piped}
use newtua_py.Host.Claims.{Sound, Sound-cong}
use newtua_py.Host.Owners.{held_by, claim, stream_claims, stream_claims-set, Sound-elsewhere}
use newtua_py.Host.Pipes.Descriptors.{reads_from, readers-set, Tidy}

abbrev pub used : StreamCall → Piped → Piped
used call p = record p { stream = after_call call p.stream }

-- The call, of the stream at an address.
unfoldable pub use_piped : StreamCall → ℕ → Option Piped → Host → Host
use_piped call a none h = h
use_piped call a (some p) h = record h { streams = set h.streams a (used call p) }

unfoldable pub use_stream : StreamCall → ℕ → Host → Host
unfolding use_piped
use_stream call a h = use_piped call a (get_elem? h.streams a) h

pub used-claim : (call : StreamCall) (p : Piped) → claim (used call p) ≡ claim p
used-claim call p =
    let (same_closed, same_claim) = after_call-Alike call p.stream in
    rw (same_closed, same_claim) refl

used-reads_from :
    (call : StreamCall) (p : Piped) (x : ℕ) → reads_from (used call p) x ≡ reads_from p x
used-reads_from call p x = rw ((after_call-Alike call p.stream).0) refl

use_piped-Sound :
    (base : ℕ → ℕ) (call : StreamCall) (a : ℕ) (found : Option Piped) (h : Host)
    → get_elem? h.streams a ≡ found
    → Sound (λ t. base t + stream_claims h.streams t) h
    → Sound
        (λ t. base t + stream_claims (use_piped call a found h).streams t)
        (use_piped call a found h)
unfolding use_piped
use_piped-Sound base call a none h there s = s
use_piped-Sound base call a (some p) h there s =
    let ps = set h.streams a (used call p) in
    Sound-cong _ _ (record h { streams = ps }) (Sound-elsewhere _ h h.open_fds h.next_fd ps s)
      (λ t. omega (
        arith,
        stream_claims-set h.streams a p (used call p) t there,
        ap (λ o. held_by o t) (used-claim call p),
      ))

-- Reading from a stream, at its end too, leaves the counters right: every claim stays.
pub use_stream-Sound :
    (base : ℕ → ℕ) (call : StreamCall) (a : ℕ) (h : Host)
    → Sound (λ t. base t + stream_claims h.streams t) h
    → Sound (λ t. base t + stream_claims (use_stream call a h).streams t) (use_stream call a h)
unfolding use_stream
use_stream-Sound base call a h s = use_piped-Sound base call a (get_elem? h.streams a) h refl s

use_piped-Tidy :
    (call : StreamCall) (a : ℕ) (found : Option Piped) (h : Host)
    → get_elem? h.streams a ≡ found
    → Tidy h
    → Tidy (use_piped call a found h)
unfolding use_piped
use_piped-Tidy call a none h there t = t
use_piped-Tidy call a (some p) h there t = record {
  counted = λ x. omega (
    arith,
    t.counted x,
    readers-set h.streams a p (used call p) x there,
    used-reads_from call p x,
  );
  once = t.once;
  free = t.free;
}

pub use_stream-Tidy : (call : StreamCall) (a : ℕ) (h : Host) → Tidy h → Tidy (use_stream call a h)
unfolding use_stream
use_stream-Tidy call a h t = use_piped-Tidy call a (get_elem? h.streams a) h refl t
