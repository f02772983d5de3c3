-- ===== src/Middleware/Tests.antt =====
-- The theorems on middleware stacks at concrete inputs.
use vumi.Base.{String, ◌≡◌, refl, none, some, List, [], ◌∷◌, ◌++◌, if◌then◌else◌, str_eq}
use vumi.Base.Exec.{ok, skip, ◌>>=◌}
use vumi.Middleware.{of_base, base_middleware, Middleware, handle_all, apply_consume, apply_publish}
use vumi.Middleware.Order.{apply-append}

-- The middleware marks the message and the state, and gives up on the message "stop".
abbrev marking : String → Middleware (List String) String
marking m = record {
  handle = λ direction name message connector s.
      (ok (if str_eq message "stop" then none else some m), s ++ m ∷ []);
  teardown_middleware = skip;
}

apply-append_example :
    (apply_consume (marking "a" ∷ marking "b" ∷ []) "inbound" "x" "c" []
      ≡ (apply_consume (marking "a" ∷ []) "inbound" "x" "c"
            >>= (λ m. apply_consume (marking "b" ∷ []) "inbound" m "c"))
          [])
    × (apply_publish (marking "a" ∷ marking "b" ∷ []) "inbound" "x" "c" []
        ≡ (apply_publish (marking "b" ∷ []) "inbound" "x" "c"
              >>= (λ m. apply_publish (marking "a" ∷ []) "inbound" m "c"))
            [])
apply-append_example = apply-append (marking "a" ∷ []) (marking "b" ∷ []) "inbound" "x" "c" []

published_backwards :
    (apply_publish (marking "a" ∷ marking "b" ∷ []) "inbound" "x" "c" []).1 ≡ "b" ∷ "a" ∷ []
unfolding apply_publish handle_all
published_backwards = refl

-- A middleware that overrides nothing changes nothing.
base_keeps :
    apply_consume (of_base base_middleware ∷ marking "b" ∷ []) "event" "x" "c" []
    ≡ (ok "b", "b" ∷ [])
unfolding apply_consume handle_all
base_keeps = refl
