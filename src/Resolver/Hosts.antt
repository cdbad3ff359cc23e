-- ===== src/Resolver/Hosts.antt =====
-- The host and the port that a thread of the resolver reads from a query.
use proxi.Base.{
  ◌+◌, ◌≡◌, refl, sym, [], ◌∷◌, ◌++◌, ok, arith, length, length-append, append_assoc, ne→==,
}
use proxi.Resolver.{split_host}
use proxi.Text.Laws.{find_at, find_none, substr_at, substr_rest}
use proxi.Text.{Bytes, Fits, Lacks, codes, npos, add64}

-- A host without a colon, whose text with "host:port" fits in memory, is split from its port at
-- the colon, whatever stands behind that; and alone it is a host at port 80.
pub split_host_lem :
    (host port : Bytes)
    → Lacks b':' host
    → Fits (host ++ b':' ∷ port)
    → (split_host (host ++ b':' ∷ port) ≡ ok (host, port))
      × (split_host host ≡ ok (host, codes "80"))
unfolding split_host
split_host_lem host port h fits =
    let m = host ++ b':' ∷ port in
    let size = length-append host (b':' ∷ port) in
    let colon = find_at m [] host port b':' 0 refl refl h in
    let at : 0 + length host ≡ length host = omega arith in
    let there = ne→== (length host) npos (omega (arith, size)) in
    let behind : add64 (length host) 1 ≡ length host + 1 = omega (arith, size) in
    let one = length-append host (b':' ∷ []) in
    let name = substr_at m [] host (b':' ∷ port) 0 (length host) refl refl refl in
    let rest =
      substr_rest m (host ++ b':' ∷ []) port (length host + 1) npos
        (sym (append_assoc host (b':' ∷ []) port)) (omega (arith, one)) (omega (arith, size)) in
    let nowhere = find_none host [] host b':' 0 refl refl h in
    (
      rw (split_host, colon, at, there, colon, at, name, behind, rest) refl,
      rw (split_host, nowhere) refl,
    )
