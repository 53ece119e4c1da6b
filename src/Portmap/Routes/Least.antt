-- ===== src/Portmap/Routes/Least.antt =====
-- internal/portmap/network.go: the default route has the least metric, and the first one wins a tie.
use tailscale_derp.Base.{
  ◌≡◌, refl, String, Bool, true, false, not, Option, none, some, List, [], ◌∷◌, ◌⊎◌, inl, inr, ℤ,
  pos, negsuc, arith, Bool-cases,
}
use tailscale_derp.Portmap.{Error}
use tailscale_derp.Portmap.Routes.{
  Route, less, max_int, best_metric, better, scan_routes, default_route, read_fields, fields,
  found_route,
}

less_trans : (a b c : ℤ) → less a b ≡ true → less c b ≡ false → less c a ≡ false
unfolding less
less_trans (pos a) (pos b) (pos c) h k = ground arith
less_trans (pos a) (pos b) (negsuc c) h k = ground arith
less_trans (pos a) (negsuc b) (pos c) h k = ground arith
less_trans (pos a) (negsuc b) (negsuc c) h k = ground arith
less_trans (negsuc a) (pos b) (pos c) h k = ground arith
less_trans (negsuc a) (pos b) (negsuc c) h k = ground arith
less_trans (negsuc a) (negsuc b) (pos c) h k = ground arith
less_trans (negsuc a) (negsuc b) (negsuc c) h k = ground arith

less_chain : (a b c : ℤ) → less a b ≡ true → less c b ≡ false → less a c ≡ true
unfolding less
less_chain (pos a) (pos b) (pos c) h k = ground arith
less_chain (pos a) (pos b) (negsuc c) h k = ground arith
less_chain (pos a) (negsuc b) (pos c) h k = ground arith
less_chain (pos a) (negsuc b) (negsuc c) h k = ground arith
less_chain (negsuc a) (pos b) (pos c) h k = ground arith
less_chain (negsuc a) (pos b) (negsuc c) h k = ground arith
less_chain (negsuc a) (negsuc b) (pos c) h k = ground arith
less_chain (negsuc a) (negsuc b) (negsuc c) h k = ground arith

less_asym : (a b : ℤ) → less a b ≡ true → less b a ≡ false
unfolding less
less_asym (pos a) (pos b) h = ground arith
less_asym (pos a) (negsuc b) h = ground arith
less_asym (negsuc a) (pos b) h = ground arith
less_asym (negsuc a) (negsuc b) h = ground arith

less_step : (a b c : ℤ) → less a b ≡ true → less b c ≡ true → less a c ≡ true
less_step a b c h k = less_chain a b c h (less_asym b c k)

less_refl : (a : ℤ) → less a a ≡ false
unfolding less
less_refl (pos a) = ground arith
less_refl (negsuc a) = ground arith

-- No line's route has a metric below this one.
abbrev pub beats : ℤ → Option Route → Bool
beats m none = false
beats m (some r) = less r.metric m

-- A line before the chosen route has no metric as low as it.
abbrev pub beats_or_ties : Route → Option Route → Bool
beats_or_ties r none = false
beats_or_ties r (some q) = not (less r.metric q.metric)

abbrev pub NoneBelow : String → ℤ → List String → Type 0
NoneBelow wanted m [] = Unit
NoneBelow wanted m (line ∷ lines) =
    (beats m (read_fields wanted (fields line)) ≡ false) × NoneBelow wanted m lines

-- The first of the routes that reach this metric: those before it are above it.
pub data FirstAt (wanted : String) (r : Route) : List String → Type 0 where
  here :
      (line : String) (lines : List String)
      → read_fields wanted (fields line) ≡ some r
      → FirstAt wanted r (line ∷ lines)
  later :
      (line : String) (lines : List String)
      → beats_or_ties r (read_fields wanted (fields line)) ≡ false
      → FirstAt wanted r lines
      → FirstAt wanted r (line ∷ lines)

-- The outcome of the scan from a best route so far.
pub data Scanned (wanted : String) (lines : List String) (best : Option Route)
    : Option Route → Type 0 where
  kept : NoneBelow wanted (best_metric best) lines → Scanned wanted lines best best
  found :
      (r : Route)
      → less r.metric (best_metric best) ≡ true
      → FirstAt wanted r lines
      → NoneBelow wanted r.metric lines
      → Scanned wanted lines best (some r)

module _ (wanted line : String) (lines : List String) where
  -- The route of the first line is no better than the best so far.
  passed_over :
      (best res : Option Route)
      → beats (best_metric best) (read_fields wanted (fields line)) ≡ false
      → Scanned wanted lines best res
      → Scanned wanted (line ∷ lines) best res
  passed_over best _ h (kept n) = kept (h, n)
  passed_over best _ h (found r l f n) =
      found r l (later line lines (above _ h l) f) (below _ h l, n)
    where
      above :
          (o : Option Route)
          → beats (best_metric best) o ≡ false
          → less r.metric (best_metric best) ≡ true
          → beats_or_ties r o ≡ false
      above none a b = refl
      above (some q) a b = ground (arith, less_chain r.metric (best_metric best) q.metric)

      below :
          (o : Option Route)
          → beats (best_metric best) o ≡ false
          → less r.metric (best_metric best) ≡ true
          → beats r.metric o ≡ false
      below none a b = refl
      below (some q) a b = less_trans r.metric (best_metric best) q.metric b a

  taken :
      (best res : Option Route) (q : Route)
      → read_fields wanted (fields line) ≡ some q
      → less q.metric (best_metric best) ≡ true
      → Scanned wanted lines (some q) res
      → Scanned wanted (line ∷ lines) best res
  taken best _ q e l (kept n) = found q l (here line lines e) (rw e (less_refl q.metric), n)
  taken best _ q e l (found r m f n) =
      found r (less_step r.metric q.metric (best_metric best) m l)
        (later line lines (rw e (ground (arith, m))) f) (rw e (less_asym r.metric q.metric m), n)

scan_step :
    (wanted line : String) (lines : List String) (best o : Option Route)
    → read_fields wanted (fields line) ≡ o
    → ((b : Option Route) → Scanned wanted lines b (scan_routes wanted lines b))
    → Scanned wanted (line ∷ lines) best (scan_routes wanted lines (better best o))
unfolding better
scan_step wanted line lines best none e ih =
    passed_over wanted line lines best _ (rw e refl) (ih best)
scan_step wanted line lines best (some r) e ih =
    elim (Bool-cases (less r.metric (best_metric best))) [
      | inl q ↦ rw q (taken wanted line lines best _ r e q (ih (some r)))
      | inr q ↦ rw q (passed_over wanted line lines best _ (rw e q) (ih best))
    ]

scan_routes-Scanned :
    (wanted : String) (lines : List String) (best : Option Route)
    → Scanned wanted lines best (scan_routes wanted lines best)
unfolding scan_routes
scan_routes-Scanned wanted [] best = kept tt
scan_routes-Scanned wanted (line ∷ lines) best =
    scan_step wanted line lines best _ refl (scan_routes-Scanned wanted lines)

-- The choice among the routes that the lines give: the first of the least metric below the largest
-- int, or an error where no route is below that.
abbrev pub IsLeast : String → List String → Route ⊎ Error → Type 0
IsLeast wanted lines (inl r) =
    (less r.metric (pos max_int) ≡ true) × FirstAt wanted r lines × NoneBelow wanted r.metric lines
IsLeast wanted lines (inr e) = NoneBelow wanted (pos max_int) lines

found-IsLeast :
    (wanted : String) (lines : List String) (res : Option Route)
    → Scanned wanted lines none res
    → IsLeast wanted lines (found_route res)
found-IsLeast wanted lines _ (kept n) = n
found-IsLeast wanted lines _ (found r l f n) = (l, f, n)

-- The default route that is found is the first of the routes with the least metric that the lines
-- give for the wanted interface; an error means that no line gives one of a metric below the largest
-- int.
pub default_route-IsLeast :
    (wanted : String) (lines : List String) → IsLeast wanted lines (default_route wanted lines)
unfolding default_route
default_route-IsLeast wanted lines =
    found-IsLeast wanted lines _ (scan_routes-Scanned wanted lines none)
