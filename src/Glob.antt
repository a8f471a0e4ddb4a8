-- ===== src/Glob.antt =====
-- Go's `path.Match`, which the policy engine calls for every wildcard pattern: `*` and `?` stop at a
-- slash, `[a-z]` and `[^a-z]` are classes, a backslash quotes. The answer `none` is `ErrBadPattern`.
pub mod Match
pub mod Syntax
