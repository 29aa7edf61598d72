-- ===== src/Errors/Laws.antt =====
-- How errors.Is sees what errors.Join builds.
use micra.Common.{◌≡◌, refl, ap, ◌∙◌, ◌||◌, List, [], ◌∷◌, any}
use micra.Errors.{Sentinel, Err, Errs, nil, cons, members, errs_of, is, is_any, is?, join}

pub members-errs_of : (es : List Err) → members (errs_of es) ≡ es
members-errs_of [] = refl
members-errs_of (e ∷ es) = ap (◌∷◌ e) (members-errs_of es)

pub is_any-members : (s : Sentinel) (es : Errs) → is_any s es ≡ any (is s) (members es)
unfolding is_any
is_any-members s nil = refl
is_any-members s (cons e es) = ap (◌||◌ (is s e)) (is_any-members s es)

-- A joined error matches a sentinel exactly when a member does.
pub is-join : (s : Sentinel) (es : List Err) → is? s (join es) ≡ any (is s) es
unfolding join is is_any
is-join s [] = refl
is-join s (e ∷ es) =
    ap (◌||◌ (is s e)) (is_any-members s (errs_of es) ∙ ap (any (is s)) (members-errs_of es))
