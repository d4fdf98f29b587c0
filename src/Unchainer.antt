-- ===== src/Unchainer.antt =====
-- app/services/unchainer/unchain.py: following the redirects of a URL. The network is a parameter:
-- what a request gives, what a host name resolves to, and which addresses are public; so is
-- `urljoin`. An exception that the code does not catch is `none`, for the chain as a whole as well. The time limit of
-- the whole chain is the argument that says whether the chain ended within it.
pub mod Hop
pub mod Chain
pub mod Walk
pub mod Laws
pub mod Blind
pub mod Safety
pub mod Raises
pub mod Total
mod Tests
