-- ===== src/HeaderParser/Policy/Laws.antt =====
-- What the policies decide, for all headers.
use proxi.Base.{[], Bool, false, not, ◌&&◌, ◌||◌, ◌≡◌, refl, sym, ◌∙◌, ap, if◌then◌else◌, arith}
use proxi.HeaderParser.Header.{has_property, get_property, set_property}
use proxi.HeaderParser.Header.Properties.{get-set, has-set, get-Absent}
use proxi.HeaderParser.Messages.{ResponseHeader}
use proxi.HeaderParser.Policy.{forbids_caching, should_cache}
use proxi.Text.{Bytes, codes, contains, equal, to_lower}

choose :
    (cc f p c e l : Bool)
    → f ≡ false
    → (if cc && f then false else if p then false else if c then false else not (not e && not l))
      ≡ (not p && not c && (e || l))
choose cc f p c e l h = ground arith

forbids_nothing : forbids_caching (to_lower []) ≡ false
unfolding forbids_caching to_lower
forbids_nothing = refl

-- A response with no property "cache_control" is cached exactly if it has an entity tag or a date
-- of modification, its "pragma" does not contain "no-cache" and its "cache" is not "none", both
-- compared in lower case. Its "cache-control" has no part in it.
pub should_cache_lem :
    (h : ResponseHeader)
    → has_property h (codes "cache_control") ≡ false
    → should_cache h ≡ (
        not (
          has_property h (codes "pragma")
          && contains (to_lower (get_property h (codes "pragma"))) (codes "no-cache"))
        && not (
            has_property h (codes "cache")
            && equal (to_lower (get_property h (codes "cache"))) (codes "none"))
        && (has_property h (codes "etag") || has_property h (codes "last-modified")))
unfolding should_cache
should_cache_lem h a =
    choose (has_property h (codes "cache-control"))
      (forbids_caching (to_lower (get_property h (codes "cache_control"))))
      (has_property h (codes "pragma")
        && contains (to_lower (get_property h (codes "pragma"))) (codes "no-cache"))
      (has_property h (codes "cache")
        && equal (to_lower (get_property h (codes "cache"))) (codes "none"))
      (has_property h (codes "etag")) (has_property h (codes "last-modified"))
      (ap (λ (s : Bytes). forbids_caching (to_lower s))
          (get-Absent (codes "cache_control") h.properties a)
        ∙ forbids_nothing)

others_same :
    (v : Bytes) (h : ResponseHeader) (name : Bytes)
    → equal (codes "cache-control") name ≡ false
    → (has_property (set_property h (codes "cache-control") v) name ≡ has_property h name)
      × (get_property (set_property h (codes "cache-control") v) name ≡ get_property h name)
others_same v h name e = (
  has-set (codes "cache-control") v name h.properties ∙ rw e refl,
  get-set (codes "cache-control") v name h.properties ∙ rw e refl,
)

-- Whatever value "cache-control" is given ("no-store" included), a response with no property
-- "cache_control" is cached as before.
pub should_cache-set_cache_control :
    (h : ResponseHeader) (v : Bytes)
    → has_property h (codes "cache_control") ≡ false
    → should_cache (set_property h (codes "cache-control") v) ≡ should_cache h
unfolding equal
should_cache-set_cache_control h v a =
    let underscore = others_same v h (codes "cache_control") refl in
    let pragma = others_same v h (codes "pragma") refl in
    let cache = others_same v h (codes "cache") refl in
    let etag = others_same v h (codes "etag") refl in
    let modified = others_same v h (codes "last-modified") refl in
    should_cache_lem (set_property h (codes "cache-control") v) (underscore.0 ∙ a)
    ∙ rw (pragma.0, pragma.1, cache.0, cache.1, etag.0, modified.0) refl
    ∙ sym (should_cache_lem h a)
