-- ===== src/Go.antt =====
-- The parts of Go's standard library that the modelled code computes with: `strings` on code
-- points, and `sort.Slice`. Texts are ASCII: `trim_space` cuts ASCII white space and `to_lower`
-- maps ASCII letters, which is what `strings.TrimSpace` and `strings.ToLower` do on such texts.
pub mod Strings
pub mod Sort
