-- ===== src/Matching/Matchers.antt =====
-- The matchers of src/lib/matching for Klokd, Lunch Drop, Chapaa and Family Discovery. The
-- discriminators `is…Briefing` repeat the domain under which Matching.Engine finds a matcher.
pub mod Klokd
pub mod LunchDrop
pub mod Chapaa
pub mod Discovery
pub mod Basket
pub mod RoundUp
