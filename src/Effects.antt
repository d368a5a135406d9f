-- ===== src/Effects.antt =====
-- src/effects/mod.rs: the check of effects. Effects.Walk collects the calls of a body, Effects.Forwarding
-- finds the parameters that a function calls, Effects.CallEffects gives the effects of a call, and Effects.Check compares them with the
-- declared ones.
pub mod Site
pub mod Walk
pub mod Forwarding
pub mod CallEffects
pub mod Check
