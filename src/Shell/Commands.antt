-- ===== src/Shell/Commands.antt =====
-- parseline, parsepipe, parseexec and parseblock, and parsecmd: they end, and cut the line at words.
use cs_577_p.Base.{ℕ, zero, suc, ◌+◌, ◌-◌, ◌*◌, ◌≤◌, arith, [], ◌∷◌}
use cs_577_p.Shell.{
  done, syntax, gettoken, peek, skip_white, parseredirs, parse_simple, parse_backs, parseline,
  parsepipe, parseexec, parseblock,
}
use cs_577_p.Shell.Lexer.{IsLine, skip_white_range, gettoken-IsGood, peek-lt}
use cs_577_p.Shell.Parser.{
  Ends, Ends-bind, Ends-if, Ends-later, Parsed, Onward, Tokens-wrap, RedirTokens, parseredirs-Ends,
  parse_simple-Ends, parse_backs-Ends,
}

module _ (buf : ℕ → ℕ) (es : ℕ) (l : IsLine buf es) where
  mutual
    unfolding parseline parsepipe parseexec parseblock

    pub parseline-Ends :
        (f s : ℕ) → s ≤ es → 4 * (es - s) + 4 ≤ f → Ends (Parsed buf es s) (parseline buf es f s)
    parseline-Ends zero s h h' = absurd (omega arith)
    parseline-Ends (suc f) s h h' =
        Ends-bind (Parsed buf es s) (Parsed buf es s) (parsepipe buf es f s) _
          (parsepipe-Ends f s h (omega arith))
          (λ p hp.
            Ends-bind (Parsed buf es p.1) (Parsed buf es s) (parse_backs buf es f p.0 p.1) _
              (parse_backs-Ends buf es l f p.0 p.1 hp.0.1 (omega arith) hp.1)
              (λ b hb.
                let r = skip_white_range buf es b.1 hb.0.1 in
                let s' = skip_white buf es b.1 in
                let g = gettoken-IsGood buf es l s' r.1 in
                Ends-if (Parsed buf es s) (peek buf es (b';' ∷ []) s') _ (done (b.0, s'))
                  (λ e.
                    let on = g.past (peek-lt buf es l (b';' ∷ []) s' r.1 e) in
                    Ends-bind (Parsed buf es (gettoken buf es s').next) (Parsed buf es s)
                      (parseline buf es f (gettoken buf es s').next) _
                      (parseline-Ends f (gettoken buf es s').next g.below (omega arith))
                      (λ c hc. ((omega arith, hc.0.1), (hb.1, hc.1))))
                  (λ e. ((omega arith, r.1), hb.1))))

    parsepipe-Ends :
        (f s : ℕ) → s ≤ es → 4 * (es - s) + 3 ≤ f → Ends (Parsed buf es s) (parsepipe buf es f s)
    parsepipe-Ends zero s h h' = absurd (omega arith)
    parsepipe-Ends (suc f) s h h' =
        Ends-bind (Parsed buf es s) (Parsed buf es s) (parseexec buf es f s) _
          (parseexec-Ends f s h (omega arith))
          (λ b hb.
            let r = skip_white_range buf es b.1 hb.0.1 in
            let s' = skip_white buf es b.1 in
            let g = gettoken-IsGood buf es l s' r.1 in
            Ends-if (Parsed buf es s) (peek buf es (b'|' ∷ []) s') _ (done (b.0, s'))
              (λ e.
                let on = g.past (peek-lt buf es l (b'|' ∷ []) s' r.1 e) in
                Ends-bind (Parsed buf es (gettoken buf es s').next) (Parsed buf es s)
                  (parsepipe buf es f (gettoken buf es s').next) _
                  (parsepipe-Ends f (gettoken buf es s').next g.below (omega arith))
                  (λ c hc. ((omega arith, hc.0.1), (hb.1, hc.1))))
              (λ e. ((omega arith, r.1), hb.1)))

    parseexec-Ends :
        (f s : ℕ) → s ≤ es → 4 * (es - s) + 2 ≤ f → Ends (Parsed buf es s) (parseexec buf es f s)
    parseexec-Ends zero s h h' = absurd (omega arith)
    parseexec-Ends (suc f) s h h' =
        let r = skip_white_range buf es s h in
        let s' = skip_white buf es s in
        Ends-if (Parsed buf es s) (peek buf es (b'(' ∷ []) s') (parseblock buf es f s')
          (parse_simple buf es f s')
          (λ e.
            Ends-later buf es s s' r.0 (parseblock buf es f s')
              (parseblock-Ends f s' r.1 (omega arith)))
          (λ e.
            Ends-later buf es s s' r.0 (parse_simple buf es f s')
              (parse_simple-Ends buf es l f s' r.1 (omega arith)))

    parseblock-Ends :
        (f s : ℕ) → s ≤ es → 4 * (es - s) + 1 ≤ f → Ends (Parsed buf es s) (parseblock buf es f s)
    parseblock-Ends zero s h h' = absurd (omega arith)
    parseblock-Ends (suc f) s h h' =
        let r = skip_white_range buf es s h in
        let s' = skip_white buf es s in
        let g = gettoken-IsGood buf es l s' r.1 in
        Ends-if (Parsed buf es s) (peek buf es (b'(' ∷ []) s') _ syntax
          (λ e.
            let on = g.past (peek-lt buf es l (b'(' ∷ []) s' r.1 e) in
            Ends-bind (Parsed buf es (gettoken buf es s').next) (Parsed buf es s)
              (parseline buf es f (gettoken buf es s').next) _
              (parseline-Ends f (gettoken buf es s').next g.below (omega arith))
              (λ c hc.
                let r' = skip_white_range buf es c.1 hc.0.1 in
                let z = skip_white buf es c.1 in
                let g' = gettoken-IsGood buf es l z r'.1 in
                Ends-if (Parsed buf es s) (peek buf es (b')' ∷ []) z) _ syntax
                  (λ e'.
                    Ends-bind
                      (λ x. Onward buf es (gettoken buf es z).next x.1 × RedirTokens buf es x.0)
                      (Parsed buf es s) (parseredirs buf es f (gettoken buf es z).next) _
                      (parseredirs-Ends buf es l f (gettoken buf es z).next g'.below
                        (omega (arith, g'.mono)))
                      (λ x p.
                        ((omega (arith, g'.mono), p.0.1), Tokens-wrap buf es c.0 x.0 hc.1 p.1)))
                  (λ e'. tt)))
          (λ e. tt)
