-- ===== src/Tests.antt =====
-- Runs of the models on concrete inputs, and the main theorems at such inputs.
mod Values
mod FreeAsyncTests
mod NetUidTests
mod NetfilterTests
mod BinderTests
mod BinderKpTests
mod BinderAllocTests
mod LifecycleTests
mod GenlTests
mod SignalTests
mod MessageTests
mod NlaTests
mod ClientTests
mod ConnectionTests
mod CoreTests
mod SystemTests
mod GovernsTests
mod ArrivesTests
mod ResolveTests
mod CommandTests
