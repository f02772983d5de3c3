-- ===== src/Tagpool/Keys.antt =====
-- The keys of a pool differ from one another, and from the keys of the owners and of the list of
-- pools.
use Prim.Native.Char.{Char, code}
use Prim.Native.String.{count, ◌++◌}
use text.Mathlib.TextLemmas.{append_cancel_left, length-append}
use vumi.Base.{
  ◌≤◌, str_eq, false, String, ◌≡◌, ◌≢◌, refl, Option, none, some, arith, eq_iff, ap, sym, ◌∙◌,
}
use vumi.Base.Text.{last, last_or, last-append}
use vumi.Tagpool.{pool_key, owner_key, pool_list_key}

-- Two keys of one pool with different states.
pub pool_key-ne : (pool s t : String) → s ≢ t → pool_key pool s ≢ pool_key pool t
unfolding pool_key
pool_key-ne pool s t ne e = ne (
    append_cancel_left ":" _ _ (
      append_cancel_left pool _ _
        (append_cancel_left ":" _ _ (append_cancel_left "tagpools" _ _ e))))

last_or-some : (a b : Option Char) → b ≢ none → last_or a b ≡ b
last_or-some a none h = absurd (h refl)
last_or-some a (some c) h = refl

last-pool_key : (pool state : String) → last state ≢ none → last (pool_key pool state) ≡ last state
unfolding pool_key
last-pool_key pool state h = simp last-append (simp (last_or-some _ (last state) h))

last-owner_key : (owner : Option String) → last (owner_key owner) ≡ some "s"
unfolding owner_key
last-owner_key none = simp last-append
last-owner_key (some o) = simp last-append

-- An owner's key is no key of a pool whose state does not end as the owner's key does.
pub owner_key-ne :
    (owner : Option String) (pool state : String)
    → last state ≢ none
    → last state ≢ some "s"
    → owner_key owner ≢ pool_key pool state
owner_key-ne owner pool state h ne e =
    ne (sym (last-pool_key pool state h) ∙ ap last (sym e) ∙ last-owner_key owner)

-- The two ways that the last characters of states are told apart.
pub some-ne_none : (c : Char) → ◌≢◌ {A = Option Char} (some c) none
some-ne_none c e = cc

pub char-ne : (c d : Char) → code c ≢ code d → ◌≢◌ {A = Option Char} (some c) (some d)
char-ne c d ne e = let same : c ≡ d = cc in ne (ap code same)

-- The states `free:list`, `free:set` and `inuse:set` end in a `t`, an owner's key in an `s`.
pub owner_key-ne_t :
    (owner : Option String) (pool state : String)
    → last state ≡ some "t"
    → owner_key owner ≢ pool_key pool state
owner_key-ne_t owner pool state h =
    owner_key-ne owner pool state (rw h (some-ne_none "t")) (rw h (char-ne "t" "s" (omega arith)))

pub state-ne : (pool s t : String) → str_eq s t ≡ false → pool_key pool s ≢ pool_key pool t
state-ne pool s t h = pool_key-ne pool s t (λ e. ground (arith, h, e, eq_iff s t))

-- The list of pools is no key of a pool: the states are longer than `list`.
pub pool_list_key-ne : (pool state : String) → 4 ≤ count state → pool_list_key ≢ pool_key pool state
unfolding pool_list_key pool_key
pool_list_key-ne pool state long e =
    let tail =
      append_cancel_left ":" "list" (pool ++ ":" ++ state) (append_cancel_left "tagpools" _ _ e) in
    omega (arith, ap count tail, length-append pool (":" ++ state), length-append ":" state)
